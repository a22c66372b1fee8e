-- ===== src/GoString/Format.antt =====
-- fmt.Errorf of a text that is built at run time, with no further argument. A directive without an
-- argument is reported inside the text. Flags, a width and a precision in digits are read; `*` and
-- an argument index in brackets are not. A verb may have several bytes; the text is taken for valid
-- UTF-8.
use pod_proxier.Base.{
  ℕ, zero, suc, ltb, Bool, ◌||◌, List, [], ◌∷◌, ◌++◌, ◌==◌ as nat_eq, if◌then◌else◌,
}
use pod_proxier.GoString.Number.{is_digit}

-- What of a directive has been read: its flags, its width, or its precision.
pub data Phase : Type 0 where
  text flags width precision : Phase
  -- The bytes of the verb that are still to come.
  verb_rest : ℕ → Phase

abbrev is_flag : ℕ → Bool
is_flag c = nat_eq c b'+' || nat_eq c b'-' || nat_eq c b'#' || nat_eq c b' ' || nat_eq c b'0'

-- The phase after the byte, while the directive goes on.
abbrev in_width : ℕ → Phase
in_width c = if is_digit c then width else if nat_eq c b'.' then precision else text

abbrev advance : Phase → ℕ → Phase
advance text c = text
advance flags c = if is_flag c then flags else in_width c
advance width c = in_width c
advance precision c = if is_digit c then precision else text
advance (verb_rest n) c = text

abbrev missing : List ℕ
missing = b'(' ∷ b'M' ∷ b'I' ∷ b'S' ∷ b'S' ∷ b'I' ∷ b'N' ∷ b'G' ∷ b')' ∷ []

-- The bytes of a rune after the given one.
abbrev bytes_after : ℕ → ℕ
bytes_after c = if ltb c 192 then 0 else if ltb c 224 then 1 else if ltb c 240 then 2 else 3

-- The end of a verb that has no argument, or a part of it.
abbrev verb_end : ℕ → List ℕ × Phase
verb_end zero = (missing, text)
verb_end (suc n) = ([], verb_rest (suc n))

-- What a verb writes that begins with the byte.
abbrev verb : ℕ → List ℕ × Phase
verb c =
    if nat_eq c b'%'
    then (b'%' ∷ [], text)
    else let (out, p) = verb_end (bytes_after c) in (b'%' ∷ b'!' ∷ c ∷ out, p)

abbrev no_verb : List ℕ
no_verb = b'%' ∷ b'!' ∷ b'(' ∷ b'N' ∷ b'O' ∷ b'V' ∷ b'E' ∷ b'R' ∷ b'B' ∷ b')' ∷ []

-- The text a byte adds, and the phase that it leaves.
abbrev emit : Phase → ℕ → List ℕ × Phase
emit text c = if nat_eq c b'%' then ([], flags) else (c ∷ [], text)
emit flags c = elim (advance flags c) [ text ↦ verb c | p ↦ ([], p) ]
emit width c = elim (advance width c) [ text ↦ verb c | p ↦ ([], p) ]
emit precision c = elim (advance precision c) [ text ↦ verb c | p ↦ ([], p) ]
emit (verb_rest zero) c = (c ∷ [], text)
emit (verb_rest (suc n)) c = let (out, p) = verb_end n in (c ∷ out, p)

unfoldable pub errorf_from : Phase → List ℕ → List ℕ
errorf_from text [] = []
errorf_from flags [] = no_verb
errorf_from width [] = no_verb
errorf_from precision [] = no_verb
errorf_from (verb_rest n) [] = []
errorf_from p (c ∷ s) = let (out, q) = emit p c in out ++ errorf_from q s

unfoldable pub errorf : List ℕ → List ℕ
unfolding errorf_from
errorf = errorf_from text
