-- ===== src/UsbTransport/RoundTrip/Sanitizing.antt =====
-- The content of a response, and its length, through `Read` and `sanitizeIppResponse`.
use ipp_usb.Base.{
  ℕ, zero, suc, ◌+◌, ◌≡◌, refl, sym, subst, ap, ◌∙◌, ◌⊎◌, inl, inr, Bool, false, arith, if_cases,
  ltb, Option, none, some, List, [], ◌∷◌, ◌++◌, append_assoc, Bytes, codes, bytes_eq_refl, length,
  length-append, take, drop, itoa, ℤ, pos,
}
use ipp_usb.Base.Dict.{lookup, lookup-insert}
use ipp_usb.UsbTransport.RoundTrip.{
  minus, plus, format_int, Reading, BodyWrapper, HttpResponse, Decoded, read, reads, replaced,
  adjusted, reencoded, sanitize_decoded, sanitize_ipp_response,
}

pub append-take : {A : Type 0} (n : ℕ) (items : List A) → items ≡ take n items ++ drop n items
append-take zero items = refl
append-take (suc n) [] = refl
append-take (suc n) (x ∷ items) = ap (λ rest. x ∷ rest) (append-take n items)

minus_append : (a c : ℕ) → minus (pos (a + c)) a ≡ pos c
unfolding minus
minus_append zero c = let e : 0 + c ≡ c = omega arith in ap pos e
minus_append (suc a) c = let e : suc a + c ≡ suc (a + c) = omega arith in rw e (minus_append a c)

drop_nil : (n : ℕ) (items : Bytes) → items ≡ [] → drop n items ≡ []
drop_nil zero items e = e
drop_nil (suc n) [] e = refl
drop_nil (suc n) (x ∷ items) e = absurd (omega (arith, ap (λ (l : Bytes). length l) e))

nil_of_length : (items : Bytes) → ltb 0 (length items) ≡ false → items ≡ []
nil_of_length [] e = refl
nil_of_length (x ∷ items) e = ground (arith, e)

new_length : (n a b c : ℕ) → n ≡ a + c → minus (plus (pos n) b) a ≡ pos (b + c)
unfolding plus
new_length n a b c e =
    let k : n + b ≡ a + (b + c) = omega (arith, e) in rw k (minus_append a (b + c))

format_pos : (z : ℤ) (n : ℕ) → z ≡ pos n → format_int z ≡ itoa n
unfolding format_int
format_pos z n e = rw e refl

module _ {B : Type 0} (read_body : B → ℕ → Reading B) (content : B → Bytes)
    (read_content : (b : B) (n : ℕ)
      → content b ≡ (read_body b n).bytes ++ content (read_body b n).rest) where
  -- What a client reads from the response, from here to its end.
  abbrev pub remaining : BodyWrapper B → Bytes
  remaining w = w.pre_body ++ content w.body

  read_remaining :
      (w : BodyWrapper B) (n : ℕ)
      → remaining w ≡ (read read_body w n).bytes ++ remaining (read read_body w n).rest
  unfolding read
  read_remaining w n =
      if_cases (λ (r : Reading (BodyWrapper B)). remaining w ≡ r.bytes ++ remaining r.rest)
        (ltb 0 (length w.pre_body)) _ _
        (λ _.
          ap (λ l. l ++ content w.body) (append-take n w.pre_body)
          ∙ append_assoc (take n w.pre_body) (drop n w.pre_body) (content w.body))
        (λ e. rw (nil_of_length w.pre_body e) (read_content w.body n))

  -- The pieces that a client reads, in order, with what it has not read yet, are the content of the
  -- response: nothing is lost or repeated between the part that was read beforehand and the rest.
  pub remaining-reads :
      (w : BodyWrapper B) (sizes : List ℕ)
      → remaining w ≡ (reads read_body w sizes).0 ++ remaining (reads read_body w sizes).1
  unfolding reads
  remaining-reads w [] = refl
  remaining-reads w (n ∷ sizes) =
      read_remaining w n
      ∙ ap (λ l. (read read_body w n).bytes ++ l) (remaining-reads (read read_body w n).rest sizes)
      ∙ sym (
          append_assoc (read read_body w n).bytes
            (reads read_body (read read_body w n).rest sizes).0
            (remaining (reads read_body (read read_body w n).rest sizes).1))

  reads_pre_body :
      (w : BodyWrapper B) (sizes : List ℕ)
      → w.pre_body ≡ []
      → (reads read_body w sizes).1.pre_body ≡ []
  unfolding reads read
  reads_pre_body w [] e = e
  reads_pre_body w (n ∷ sizes) e = reads_pre_body (read read_body w n).rest sizes (
      if_cases (λ (r : Reading (BodyWrapper B)). r.rest.pre_body ≡ []) _ _ _
        (λ _. drop_nil n w.pre_body e) (λ _. e))

  module _ {M : Type 0} (decode_ex : BodyWrapper B → Decoded B M) (decode_bytes : Bytes → Bool)
      (encode : M → Option Bytes)
      (decode_reads : (w : BodyWrapper B)
        → (sizes : List ℕ) × (reads read_body w sizes
            ≡ ((decode_ex w).consumed, (decode_ex w).rest))) where
    -- `after` has the content of `before` with the same headers, or a new content; and its length
    -- is announced.
    abbrev pub Announces : HttpResponse (BodyWrapper B) → HttpResponse (BodyWrapper B) → Type 0
    Announces before after =
        (after.content_length ≡ pos (length (remaining after.body)))
        × (((remaining after.body ≡ remaining before.body) × (after.header ≡ before.header))
            ⊎ (lookup (codes "Content-Length") after.header
                ≡ some (itoa (length (remaining after.body)) ∷ [])))

    abbrev Split : HttpResponse (BodyWrapper B) → Decoded B M → Type 0
    Split resp d =
        (resp.content_length ≡ pos (length (remaining resp.body)))
        × (remaining resp.body ≡ d.consumed ++ content d.rest.body)

    replaced-Announces :
        (resp : HttpResponse (BodyWrapper B)) (d : Decoded B M)
        → Split resp d
        → Announces resp (replaced decode_ex decode_bytes encode resp d d.consumed)
    replaced-Announces resp d (l, e) = (l ∙ ap (λ (b : Bytes). pos (length b)) e, inl (sym e, refl))

    adjusted-Announces :
        (resp : HttpResponse (BodyWrapper B)) (d : Decoded B M) (buf2 : Bytes) (n : ℕ)
        → resp.content_length ≡ pos n
        → n ≡ length d.consumed + length (content d.rest.body)
        → Announces resp (
            replaced decode_ex decode_bytes encode
              (adjusted decode_ex decode_bytes encode resp (length d.consumed) (length buf2))
              d
              buf2)
    adjusted-Announces resp d buf2 n l e = rw l (
      total,
      inr (
          lookup-insert (codes "Content-Length") (codes "Content-Length") (format_int new ∷ [])
            resp.header
          ∙ rw (bytes_eq_refl (codes "Content-Length"))
              (ap (λ (v : Bytes). some (v ∷ [])) (format_pos new _ total))),
    )
      where
        new : ℤ
        new = minus (plus (pos n) (length buf2)) (length d.consumed)

        total : new ≡ pos (length (buf2 ++ content d.rest.body))
        total =
            new_length n (length d.consumed) (length buf2) (length (content d.rest.body)) e
            ∙ ap pos (sym (length-append buf2 (content d.rest.body)))

    reencoded-Announces :
        (resp : HttpResponse (BodyWrapper B)) (d : Decoded B M) (o : Option Bytes)
        → Split resp d
        → Announces resp (reencoded decode_ex decode_bytes encode resp d o)
    reencoded-Announces resp d none s = replaced-Announces resp d s
    reencoded-Announces resp d (some buf2) s =
        adjusted-Announces resp d buf2 (length (remaining resp.body)) s.0
          (ap (λ (b : Bytes). length b) s.1 ∙ length-append d.consumed (content d.rest.body))

    sanitize_decoded-Announces :
        (resp : HttpResponse (BodyWrapper B)) (d : Decoded B M) (o : Option M)
        → Split resp d
        → Announces resp (sanitize_decoded decode_ex decode_bytes encode resp d o)
    sanitize_decoded-Announces resp d none s = replaced-Announces resp d s
    sanitize_decoded-Announces resp d (some msg) s =
        if_cases (Announces resp) (decode_bytes d.consumed) _ _ (λ _. replaced-Announces resp d s)
          (λ _. reencoded-Announces resp d (encode msg) s)

    decode_ex-Split :
        (resp : HttpResponse (BodyWrapper B))
        → resp.body.pre_body ≡ []
        → remaining resp.body
          ≡ (decode_ex resp.body).consumed ++ content (decode_ex resp.body).rest.body
    decode_ex-Split resp e =
        let d = decode_reads resp.body in
        remaining-reads resp.body d.0
        ∙ ap (λ (r : Bytes × BodyWrapper B). r.0 ++ remaining r.1) d.1
        ∙ ap
            (λ (l : Bytes).
              (decode_ex resp.body).consumed ++ (l ++ content (decode_ex resp.body).rest.body))
            nothing
      where
        nothing : (decode_ex resp.body).rest.pre_body ≡ []
        nothing =
            subst (λ (r : Bytes × BodyWrapper B). r.1.pre_body ≡ []) ((decode_reads resp.body).1)
              (reads_pre_body resp.body (decode_reads resp.body).0 e)

    -- Let the reads of a body return its content in order, and the decoder of IPP messages only
    -- read from the body. If a response that nothing was read from has the length of its content,
    -- it also has after `sanitizeIppResponse`; and the content and the headers are the same, or
    -- the header Content-Length has the new length too.
    pub sanitize_ipp_response-Announces :
        (resp : HttpResponse (BodyWrapper B))
        → resp.body.pre_body ≡ []
        → resp.content_length ≡ pos (length (remaining resp.body))
        → Announces resp (sanitize_ipp_response decode_ex decode_bytes encode resp)
    unfolding sanitize_ipp_response
    sanitize_ipp_response-Announces resp e l =
        sanitize_decoded-Announces resp (decode_ex resp.body) (decode_ex resp.body).message
          (l, decode_ex-Split resp e)
