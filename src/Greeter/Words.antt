-- ===== src/Greeter/Words.antt =====
-- The loop of `entrance_gui_stringlist_get` of src/bin/entrance_gui.c over a buffer, by its two pointers.
use entrance.Greeter.Gui.{string_words}
use entrance.Common.{
  ℕ, zero, suc, ◌+◌, ◌-◌, ◌≡◌, refl, sym, ◌∙◌, ap, inl, inr, Bool, true, false, not, ◌&&◌, List, [],
  ◌∷◌, ◌++◌, Option, none, some, Str, arith, ◌==◌, if◌then◌else◌, Bool-cases, get_elem?, take,
  length, length-append,
}
use mathlib.Core.List.{append_assoc}

abbrev drop : ℕ → Str → Str
drop zero s = s
drop (suc n) [] = []
drop (suc n) (c ∷ s) = drop n s

-- The bytes from `b` up to `s`, which are copied.
abbrev bytes : Str → ℕ → ℕ → Str
bytes buf b s = take (s - b) (drop b buf)

-- The loop from the indices `b` and `s` on with the list so far; none is a read outside of the buffer, or
-- a loop that has not ended after so many rounds.
unfoldable pub stringlist_loop : ℕ → Str → ℕ → ℕ → List Str → Option (List Str)
stringlist_loop zero buf b s list = none
stringlist_loop (suc rounds) buf b s list =
    let word = list ++ bytes buf b s ∷ [] in
    let after_word = stringlist_loop rounds buf (s + 1) (s + 1) word in
    let in_word = stringlist_loop rounds buf b (s + 1) list in
    elim (get_elem? buf s) [
      | none ↦ none
      | some c ↦ if c == 0 then some word else if c == b' ' then after_word else in_word
    ]

abbrev pub nul_free : Str → Bool
nul_free [] = true
nul_free (c ∷ s) = not (c == 0) && nul_free s

get_elem?-append : (pre : Str) (c : ℕ) (s : Str) → get_elem? (pre ++ c ∷ s) (length pre) ≡ some c
get_elem?-append [] c s = refl
get_elem?-append (x ∷ pre) c s = get_elem?-append pre c s

drop-append : (pre s : Str) → drop (length pre) (pre ++ s) ≡ s
drop-append [] s = refl
drop-append (x ∷ pre) s = drop-append pre s

take-append : (w s : Str) → take (length w) (w ++ s) ≡ w
take-append [] s = refl
take-append (x ∷ w) s = ap (◌∷◌ x) (take-append w s)

-- The word between the two pointers.
bytes-append : (pre w s : Str) → bytes (pre ++ (w ++ s)) (length pre) (length pre + length w) ≡ w
bytes-append pre w s =
    ap (λ l. take (length pre + length w - length pre) l) (drop-append pre (w ++ s))
    ∙ (ap (λ n. take n (w ++ s)) (omega arith) ∙ take-append w s)

-- A place of the loop: the buffer is what lies before the word, the word so far, and the rest.
record At (buf : Str) (b s : ℕ) (pre w rest : Str) : Type 0 where
  buffer : buf ≡ pre ++ (w ++ rest)
  start : b ≡ length pre
  here : s ≡ length pre + length w

module _ (buf : Str) where
  At-read :
      {b s : ℕ} {pre w : Str} {c : ℕ} {rest : Str}
      → At buf b s pre w (c ∷ rest)
      → get_elem? buf s ≡ some c
  At-read {b} {s} {pre} {w} {c} {rest} a =
      let place : s ≡ length (pre ++ w) = omega (arith, a.here, length-append pre w) in
      ap (get_elem? buf) place
      ∙ (ap (λ l. get_elem? l (length (pre ++ w))) (a.buffer ∙ sym (append_assoc pre w (c ∷ rest)))
          ∙ get_elem?-append (pre ++ w) c rest)

  At-bytes : {b s : ℕ} {pre w rest : Str} → At buf b s pre w rest → bytes buf b s ≡ w
  At-bytes {b} {s} {pre} {w} {rest} a =
      ap (λ i. bytes buf i s) a.start
      ∙ (ap (bytes buf (length pre)) a.here
          ∙ (ap (λ l. bytes l (length pre) (length pre + length w)) a.buffer
              ∙ bytes-append pre w rest))

  -- One byte further, in the same word or after it.
  At-longer :
      {b s : ℕ} {pre w : Str} {c : ℕ} {rest : Str}
      → At buf b s pre w (c ∷ rest)
      → At buf b (s + 1) pre (w ++ c ∷ []) rest
  At-longer {b} {s} {pre} {w} {c} {rest} a = record {
    buffer = a.buffer ∙ ap (λ l. pre ++ l) (sym (append_assoc w (c ∷ []) rest));
    start = a.start;
    here = omega (arith, a.here, length-append w (c ∷ []));
  }

  At-next :
      {b s : ℕ} {pre w : Str} {c : ℕ} {rest : Str}
      → At buf b s pre w (c ∷ rest)
      → At buf (s + 1) (s + 1) ((pre ++ w) ++ c ∷ []) [] rest
  At-next {b} {s} {pre} {w} {c} {rest} a = record {
    buffer =
        a.buffer
        ∙ (sym (append_assoc pre w (c ∷ rest)) ∙ sym (append_assoc (pre ++ w) (c ∷ []) rest));
    start = omega (arith, a.here, length-append pre w, length-append (pre ++ w) (c ∷ []));
    here = omega (arith, a.here, length-append pre w, length-append (pre ++ w) (c ∷ []));
  }

  loop-words :
      (rest pre w junk : Str) (b s : ℕ) (list : List Str)
      → nul_free rest ≡ true
      → At buf b s pre w (rest ++ 0 ∷ junk)
      → stringlist_loop (suc (length rest)) buf b s list ≡ some (list ++ string_words w rest)
  unfolding stringlist_loop string_words
  loop-words [] pre w junk b s list f a =
      rw (stringlist_loop, At-read a) (ap (λ v. some (list ++ v ∷ [])) (At-bytes a))
  loop-words (c ∷ rest) pre w junk b s list f a =
      let more : nul_free rest ≡ true = ground arith in
      let byte : (c == 0) ≡ false = ground arith in
      elim (Bool-cases (c == b' ')) [
        | inl y ↦
            rw (stringlist_loop, At-read a, byte, y)
              (loop-words rest ((pre ++ w) ++ c ∷ []) [] junk (s + 1) (s + 1)
                  (list ++ bytes buf b s ∷ []) more (At-next a)
                ∙ (ap (λ v. some ((list ++ v ∷ []) ++ string_words [] rest)) (At-bytes a)
                    ∙ ap some (append_assoc list (w ∷ []) (string_words [] rest))))
        | inr n ↦
            rw (stringlist_loop, At-read a, byte, n)
              (loop-words rest pre (w ++ c ∷ []) junk b (s + 1) list more (At-longer a))
      ]

-- On a C string, whatever bytes follow its NUL, the loop ends in as many rounds as the string has bytes
-- and one more; it reads nothing after the NUL, and its list is that of the string's words.
pub stringlist_loop_ends :
    (str junk : Str)
    → nul_free str ≡ true
    → stringlist_loop (suc (length str)) (str ++ 0 ∷ junk) 0 0 [] ≡ some (string_words [] str)
stringlist_loop_ends str junk f =
    loop-words (str ++ 0 ∷ junk) str [] [] junk 0 0 [] f
      (record { buffer = refl; start = refl; here = omega arith })
