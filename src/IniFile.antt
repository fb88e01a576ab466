-- ===== src/IniFile.antt =====
-- inifile.go: the .INI file reader. The file is the list of its bytes, followed by the end of the
-- file: other read errors are outside the model, and so are locks and file handles.
-- Children: IniFile/Reader (`getc`, `ungetc` and what they call), IniFile/Token (`token`),
-- IniFile/Records (`Next`), IniFile/Values (the `Load` methods of a record), and the proofs:
-- IniFile/Termination (when `token` ends), IniFile/Progress (when `Next` ends),
-- IniFile/Hanging (when `token` does not), IniFile/Limits (the ranges of the values) and
-- IniFile/Rules (the rules of users).
pub mod Reader
pub mod Token
pub mod Records
pub mod Values
pub mod Termination
pub mod Progress
pub mod Hanging
pub mod Limits
pub mod Rules
