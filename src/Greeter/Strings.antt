-- ===== src/Greeter/Strings.antt =====
-- `entrance_gui_stringlist_get` of src/bin/entrance_gui.c: a text and its words.
use entrance.Greeter.Gui.{string_words, entrance_gui_stringlist_get}
use entrance.Common.{
  ℕ, ◌≡◌, refl, sym, ◌∙◌, ap, Bool, true, false, not, ◌&&◌, List, [], ◌∷◌, ◌++◌, some, Str, arith,
  ◌==◌, if◌then◌else◌, All,
}

-- The words with one space between two of them.
unfoldable pub join : List Str → Str
join [] = []
join (w ∷ []) = w
join (w ∷ v ∷ ws) = w ++ b' ' ∷ join (v ∷ ws)

unfoldable pub spaceless : Str → Bool
spaceless [] = true
spaceless (c ∷ s) = not (c == b' ') && spaceless s

abbrev pub Spaceless : List Str → Type 0
Spaceless ws = All (λ w. spaceless w ≡ true) ws

append_assoc : (a b c : Str) → (a ++ b) ++ c ≡ a ++ (b ++ c)
append_assoc [] b c = refl
append_assoc (x ∷ a) b c = ap (◌∷◌ x) (append_assoc a b c)

append_nil : (a : Str) → a ++ [] ≡ a
append_nil [] = refl
append_nil (x ∷ a) = ap (◌∷◌ x) (append_nil a)

spaceless_snoc :
    (w : Str) (c : ℕ) → spaceless w ≡ true → (c == b' ') ≡ false → spaceless (w ++ c ∷ []) ≡ true
unfolding spaceless
spaceless_snoc [] c h n = ground arith
spaceless_snoc (x ∷ w) c h n = ground (arith, spaceless_snoc w c)

-- The words that the loop finds: at least one, without spaces, and the text is their join.
record Words (s : Str) (ws : List Str) : Type 0 where
  head : Str
  tail : List Str
  some_word : ws ≡ head ∷ tail
  joined : join ws ≡ s
  spaceless_words : Spaceless ws

string_words-Words :
    (word s : Str) → spaceless word ≡ true → Words (word ++ s) (string_words word s)
unfolding string_words join spaceless
string_words-Words word [] h = record {
  head = word;
  tail = [];
  some_word = refl;
  joined = sym (append_nil word);
  spaceless_words = (h, tt);
}
string_words-Words word (c ∷ s) h =
    by_test (c == b' ') refl (string_words-Words [] s refl) (string_words-Words (word ++ c ∷ []) s)
  where
    by_test :
        (b : Bool)
        → (c == b' ') ≡ b
        → Words s (string_words [] s)
        → (spaceless (word ++ c ∷ []) ≡ true
            → Words ((word ++ c ∷ []) ++ s) (string_words (word ++ c ∷ []) s))
        → Words
            (word ++ c ∷ s)
            (if b then word ∷ string_words [] s else string_words (word ++ c ∷ []) s)
    by_test true e next longer =
        let is_space : b' ' ≡ c = ground arith in
        record {
          head = word;
          tail = string_words [] s;
          some_word = refl;
          joined =
              ap (λ l. join (word ∷ l)) next.some_word
              ∙ (ap (λ j. word ++ b' ' ∷ j) (ap join (sym next.some_word) ∙ next.joined)
                  ∙ ap (λ x. word ++ x ∷ s) is_space);
          spaceless_words = (h, next.spaceless_words);
        }
    by_test false e next longer =
        let long = longer (spaceless_snoc word c h e) in
        record {
          head = long.head;
          tail = long.tail;
          some_word = long.some_word;
          joined = long.joined ∙ append_assoc word (c ∷ []) s;
          spaceless_words = long.spaceless_words;
        }

-- The words of a text, which are at least one, have no space, and joined by single spaces they are the text.
pub join-stringlist_get :
    (str : Str)
    → (join (entrance_gui_stringlist_get (some str)) ≡ str)
      × Spaceless (entrance_gui_stringlist_get (some str))
unfolding entrance_gui_stringlist_get spaceless
join-stringlist_get str = let w = string_words-Words [] str refl in (w.joined, w.spaceless_words)

string_words_over :
    (word w s : Str) → spaceless w ≡ true → string_words word (w ++ s) ≡ string_words (word ++ w) s
unfolding string_words spaceless
string_words_over word [] s h = ap (λ x. string_words x s) (sym (append_nil word))
string_words_over word (c ∷ w) s h =
    let not_space : (c == b' ') ≡ false = ground arith in
    let rest : spaceless w ≡ true = ground arith in
    rw (not_space) (
      string_words_over (word ++ c ∷ []) w s rest
      ∙ ap (λ x. string_words x s) (append_assoc word (c ∷ []) w))

-- Words without spaces, at least one and possibly empty, that are joined by single spaces are found again.
pub stringlist_get-join :
    (w : Str) (ws : List Str)
    → Spaceless (w ∷ ws)
    → entrance_gui_stringlist_get (some (join (w ∷ ws))) ≡ w ∷ ws
unfolding entrance_gui_stringlist_get join string_words
stringlist_get-join w [] (h, hs) =
    ap (string_words []) (sym (append_nil w)) ∙ string_words_over [] w [] h
stringlist_get-join w (v ∷ ws) (h, hs) =
    string_words_over [] w (b' ' ∷ join (v ∷ ws)) h ∙ ap (◌∷◌ w) (stringlist_get-join v ws hs)
