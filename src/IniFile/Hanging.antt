-- ===== src/IniFile/Hanging.antt =====
-- A value that ends in a backslash at the very end of the file, with no newline behind it.
use ipp_usb.Base.{ℕ, zero, suc, ◌≡◌, ◌⊎◌, inl, inr, refl, true, none, [], ◌∷◌}
use ipp_usb.IniFile.Reader.{Reader}
use ipp_usb.IniFile.Token.{skip_space, body, Tok, step, loop, fresh, token}
use ipp_usb.IniFile.Termination.{loop-cons}

loop-hangs :
    (fuel : ℕ) (t : Tok)
    → t.reader.unread ≡ b'\\' ∷ []
    → (t.state ≡ body) ⊎ (t.state ≡ skip_space)
    → loop fuel none true t ≡ none
unfolding loop step
loop-hangs zero t h s = refl
loop-hangs (suc f) t h (inl s) =
    rw (loop-cons f none true t b'\\' [] h, s) (loop-hangs f _ refl (inl refl))
loop-hangs (suc f) t h (inr s) =
    rw (loop-cons f none true t b'\\' [] h, s) (loop-hangs f _ refl (inl refl))

-- The loop of `token` that reads a value, once all that is unread is a backslash and it stands
-- outside of quotes and comments, ends with no amount of fuel: the backslash is put back and read
-- again for ever.
pub token-hangs : (r : Reader) → r.unread ≡ b'\\' ∷ [] → (fuel : ℕ) → token fuel r none true ≡ none
unfolding token
token-hangs r h fuel = rw (loop-hangs fuel (fresh r) h (inr refl), token)
