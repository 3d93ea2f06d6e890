-- ===== src/Session/Xauth.antt =====
-- src/daemon/entrance_session.c: the X authority file of a seat's session, which is named after the
-- configured one, and to which the session's cookie is added.

use entrance.Common.{
  ℕ, zero, suc, ◌+◌, ◌-◌, ◌*◌, ◌^◌, ◌≤◌, ◌<◌, ◌≡◌, refl, ◌∙◌, ap, [], ◌∷◌, ◌++◌, Option, none, some,
  Str, codes, decimal, take, truncate, length, length-append, if◌then◌else◌, ltb, ◌==◌, arith,
}

abbrev pub path_max : ℕ
path_max = 4096

-- A difference of two `size_t`.
unfoldable pub size_sub : ℕ → ℕ → ℕ
size_sub a b = if ltb a b then a + 2 ^ 64 - b else a - b

-- `snprintf` into a buffer of PATH_MAX bytes with a size that is computed: nothing is written for the size
-- 0, and none is a write past the buffer.
unfoldable pub print_path : ℕ → Str → Str → Option Str
print_path size old text =
    let kept = take (size - 1) text in
    if size == 0 then some old else if ltb (length kept) path_max then some kept else none

abbrev then_print : Option Str → ℕ → Str → Option Str
then_print none id file = none
then_print (some base) id file =
    print_path (size_sub (size_sub path_max (size_sub (length file) 4)) 10) file
      (base ++ codes "-" ++ decimal id ++ codes ".auth")

-- The name of the file, from the configured name; `garbage` is what `buf` has before it is written.
unfoldable pub xauth_file_name : Str → Str → ℕ → Option Str
unfolding size_sub print_path decimal
xauth_file_name garbage configured id =
    let file = truncate path_max configured in
    then_print (print_path (size_sub (length file) 4) garbage file) id file

-- The variable for the environment.
unfoldable pub xauthority : Str → Option Str
unfolding size_sub print_path
xauthority name = print_path (size_sub path_max (length name)) [] (codes "XAUTHORITY=" ++ name)

take-all : (n : ℕ) (s : Str) → length s ≤ n → take n s ≡ s
take-all zero [] h = refl
take-all (suc n) [] h = refl
take-all zero (c ∷ s) h = absurd (omega arith)
take-all (suc n) (c ∷ s) h = ap (◌∷◌ c) (take-all n s (omega arith))

take-append : (n : ℕ) (a b : Str) → n ≡ length a → take n (a ++ b) ≡ a
take-append zero [] b h = refl
take-append (suc n) [] b h = absurd (omega arith)
take-append zero (c ∷ a) b h = absurd (omega arith)
take-append (suc n) (c ∷ a) b h = ap (◌∷◌ c) (take-append n a b (omega arith))

-- A text that fits.
printed :
    (size : ℕ) (old text : Str)
    → length text < size
    → length text < path_max
    → print_path size old text ≡ some text
unfolding print_path
printed size old text fits small =
    let whole : take (size - 1) text ≡ text = take-all (size - 1) text (omega arith) in
    rw whole (ground arith)

-- A text of which the start is kept.
printed_start :
    (size : ℕ) (old a b : Str)
    → size ≡ suc (length a)
    → length a < path_max
    → print_path size old (a ++ b) ≡ some a
unfolding print_path
printed_start size old a b e small =
    let start : take (size - 1) (a ++ b) ≡ a = take-append (size - 1) a b (omega (arith, e)) in
    rw start (ground arith)

-- The name of a seat's file.
abbrev pub seat_file : Str → ℕ → Str
seat_file dir id = dir ++ codes "-" ++ decimal id ++ codes ".auth"

length-seat_file :
    (dir : Str) (id : ℕ) → length (seat_file dir id) ≡ length dir + (length (decimal id) + 6)
length-seat_file dir id = omega (
  arith,
  length-append ((dir ++ codes "-") ++ decimal id) (codes ".auth"),
  length-append (dir ++ codes "-") (decimal id),
  length-append dir (codes "-"),
)

size_sub-le : (a b : ℕ) → b ≤ a → size_sub a b ≡ a - b
unfolding size_sub
size_sub-le a b h = ground arith

-- The two prints of the name, with what is known of their sizes.
named :
    (garbage dir : Str) (id : ℕ)
    → 2 * (length dir + length (decimal id)) < 4073
    → xauth_file_name garbage (dir ++ codes ".auth") id ≡ some (seat_file dir id)
unfolding xauth_file_name
named garbage dir id fits =
    let file : Str = dir ++ codes ".auth" in
    let long : length file ≡ length dir + 5 = length-append dir (codes ".auth") in
    let whole : truncate path_max file ≡ file = take-all 4095 file (omega (arith, long)) in
    let less : size_sub (length file) 4 ≡ suc (length dir) =
      size_sub-le (length file) 4 (omega (arith, long)) ∙ omega (arith, long) in
    let base : print_path (size_sub (length file) 4) garbage file ≡ some dir =
      printed_start (size_sub (length file) 4) garbage dir (codes ".auth") less (omega arith) in
    let room : size_sub path_max (size_sub (length file) 4) ≡ 4095 - length dir =
      ap (size_sub path_max) less
      ∙ (size_sub-le path_max (suc (length dir)) (omega arith) ∙ omega arith) in
    let size : size_sub (size_sub path_max (size_sub (length file) 4)) 10 ≡ 4085 - length dir =
      ap (λ n. size_sub n 10) room
      ∙ (size_sub-le (4095 - length dir) 10 (omega arith) ∙ omega arith) in
    let name : print_path (size_sub (size_sub path_max (size_sub (length file) 4)) 10) file
          (seat_file dir id)
        ≡ some (seat_file dir id) =
      printed (size_sub (size_sub path_max (size_sub (length file) 4)) 10) file (seat_file dir id)
        (omega (arith, size, length-seat_file dir id)) (omega (arith, length-seat_file dir id)) in
    ap (λ f. then_print (print_path (size_sub (length f) 4) garbage f) id f) whole
    ∙ (ap (λ b. then_print b id file) base ∙ name)

-- A configured name that ends in ".auth": while what is before that, and the number of the seat, have
-- together less than 2037 bytes, the seat's file is the configured one with the number before the ending,
-- whole, whatever the buffer had; and the variable names that file, whole.
pub xauth_file_name-seat_file :
    (garbage dir : Str) (id : ℕ)
    → 2 * (length dir + length (decimal id)) < 4073
    → (xauth_file_name garbage (dir ++ codes ".auth") id ≡ some (seat_file dir id))
      × (xauthority (seat_file dir id) ≡ some (codes "XAUTHORITY=" ++ seat_file dir id))
unfolding xauthority
xauth_file_name-seat_file garbage dir id fits =
    let long = length-seat_file dir id in
    let size : size_sub path_max (length (seat_file dir id))
        ≡ path_max - length (seat_file dir id) =
      size_sub-le path_max (length (seat_file dir id)) (omega (arith, long)) in
    let text = length-append (codes "XAUTHORITY=") (seat_file dir id) in
    (
      named garbage dir id fits,
      printed (size_sub path_max (length (seat_file dir id))) []
          (codes "XAUTHORITY=" ++ seat_file dir id) (omega (arith, size, long, text))
          (omega (arith, long, text)),
    )
