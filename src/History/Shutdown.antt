-- ===== src/History/Shutdown.antt =====
-- `entrance_history_shutdown` of src/daemon/entrance_history.c, on lists without double pointers.
use mathlib.Core.List.{Memᴰ}
use entrance.History.{
  EntranceLogin, HistoryState, read_all, entrance_history_write, free_at, remove, user_shutdown,
  free_history, entrance_history_shutdown,
}
use entrance.History.Live.{AllLive}
use entrance.Common.{
  ℕ, ◌≡◌, refl, ◌≢◌, sym, subst, ap, ◌∙◌, inl, inr, Bool, true, false, List, [], ◌∷◌, Option, some,
  arith, Slot, slot_get, set, get_elem?-set_ne, object, Bool-cases, ◌==◌, ==_iff, ne_of_==,
  if◌then◌else◌,
}

-- No pointer stands in the list twice.
abbrev pub Distinct : List ℕ → Type 0
Distinct [] = Unit
Distinct (l ∷ ls) = ((k : ℕ) → Memᴰ k ls → l ≢ k) × Distinct ls

remove-Memᴰ : (l k : ℕ) (ls : List ℕ) → Memᴰ k (remove l ls) → Memᴰ k ls
unfolding remove
remove-Memᴰ l k [] m = m
remove-Memᴰ l k (h ∷ ls) m = go (h == l) m (remove-Memᴰ l k ls)
  where
    go :
        (b : Bool)
        → Memᴰ k (if b then ls else h ∷ remove l ls)
        → (Memᴰ k (remove l ls) → Memᴰ k ls)
        → Memᴰ k (h ∷ ls)
    go true n rec = Memᴰ.tail n
    go false (Memᴰ.head e) rec = Memᴰ.head e
    go false (Memᴰ.tail n) rec = Memᴰ.tail (rec n)

remove-Distinct :
    (l : ℕ) (ls : List ℕ)
    → Distinct ls
    → Distinct (remove l ls) × ((k : ℕ) → Memᴰ k (remove l ls) → l ≢ k)
unfolding remove
remove-Distinct l [] d = (tt, λ k m. elim m [ ])
remove-Distinct l (h ∷ ls) (fresh, d) = go (h == l) refl (remove-Distinct l ls d)
  where
    go :
        (b : Bool)
        → (h == l) ≡ b
        → Distinct (remove l ls) × ((k : ℕ) → Memᴰ k (remove l ls) → l ≢ k)
        → Distinct (if b then ls else h ∷ remove l ls)
          × ((k : ℕ) → Memᴰ k (if b then ls else h ∷ remove l ls) → l ≢ k)
    go true e rec =
        let same : h ≡ l = (==_iff h l).0 e in (d, λ k m. subst (λ x. x ≢ k) same (fresh k m))
    go false e (rest, off) = ((λ k m. fresh k (remove-Memᴰ l k ls m), rest), others)
      where
        others : (k : ℕ) → Memᴰ k (h ∷ remove l ls) → l ≢ k
        others k (Memᴰ.head q) r = ne_of_== h l e (sym q ∙ sym r)
        others k (Memᴰ.tail m) r = off k m r

freed-AllLive :
    (store : List (Slot EntranceLogin)) (l : ℕ) (ls : List ℕ)
    → AllLive store ls
    → ((k : ℕ) → Memᴰ k ls → l ≢ k)
    → AllLive (set store l Slot.freed) ls
unfolding slot_get
freed-AllLive store l ls live off k m =
    let (e, at_k) = live k m in
    (e, ap object (get_elem?-set_ne store l k Slot.freed (off k m)) ∙ at_k)

free_at_eq :
    (l : ℕ) (s : HistoryState) (e : EntranceLogin)
    → slot_get s.store l ≡ some e
    → free_at l s ≡ some (tt, record s { store = set s.store l Slot.freed })
unfolding free_at
free_at_eq l s e at_l = ground arith

-- The lists of the state are without dangling and double pointers.
record Sound (s : HistoryState) : Type 0 where
  live : AllLive s.store s.history
  distinct : Distinct s.history

user_shutdown-Sound :
    (lusers : List ℕ) (s : HistoryState)
    → AllLive s.store lusers
    → Distinct lusers
    → Sound s
    → (t : HistoryState) × (user_shutdown lusers s ≡ some (tt, t)) × Sound t × (t.lusers ≡ [])
unfolding user_shutdown
user_shutdown-Sound [] s live d sound =
    (_, refl, record { live = sound.live; distinct = sound.distinct }, refl)
user_shutdown-Sound (l ∷ ls) s live (fresh, d) sound =
    let (e, at_l) = live l (Memᴰ.head refl) in
    let (kept, off) = remove-Distinct l s.history sound.distinct in
    let s1 : HistoryState = record s {
      history = remove l s.history;
      store = set s.store l Slot.freed;
    } in
    let (t, runs, sound_t, none_left) =
      user_shutdown-Sound ls s1 (freed-AllLive s.store l ls (λ k m. live k (Memᴰ.tail m)) fresh) d
        (record {
          live =
              freed-AllLive s.store l (remove l s.history)
                (λ k m. sound.live k (remove-Memᴰ l k s.history m)) off;
          distinct = kept;
        }) in
    (
      t,
      ground (arith, free_at_eq l (record s { history = remove l s.history }) e at_l),
      sound_t,
      none_left,
    )

free_history-total :
    (ls : List ℕ) (s : HistoryState)
    → AllLive s.store ls
    → Distinct ls
    → (t : HistoryState) × (free_history ls s ≡ some (tt, t))
      × (t.history ≡ [])
      × (t.lusers ≡ s.lusers)
unfolding free_history
free_history-total [] s live d = (_, refl, refl, refl)
free_history-total (l ∷ ls) s live (fresh, d) =
    let (e, at_l) = live l (Memᴰ.head refl) in
    let (t, runs, gone, same) =
      free_history-total ls (record s { store = set s.store l Slot.freed })
        (freed-AllLive s.store l ls (λ k m. live k (Memᴰ.tail m)) fresh) d in
    (t, ground (arith, free_at_eq l s e at_l), gone, same)

read_all-total :
    (ls : List ℕ) (s : HistoryState)
    → AllLive s.store ls
    → (es : List EntranceLogin) × (read_all ls s ≡ some (es, s))
unfolding read_all
read_all-total [] s live = ([], refl)
read_all-total (l ∷ ls) s live =
    let (e, at_l) = live l (Memᴰ.head refl) in
    let (es, runs) = read_all-total ls s (λ k m. live k (Memᴰ.tail m)) in (e ∷ es, ground arith)

-- Writing the file changes nothing else.
write-total :
    (s : HistoryState)
    → AllLive s.store s.history
    → (w : Option (List EntranceLogin)) × (entrance_history_write s
        ≡ some (tt, record s { written = w }))
unfolding entrance_history_write
write-total s live =
    let (es, runs) = read_all-total s.history s live in
    elim (Bool-cases s.history_update) [
      | inl y ↦ (some es, ground arith)
      | inr n ↦ (s.written, ground arith)
    ]

-- When the history and the list of users have no dangling pointer and neither has a pointer twice,
-- the shutdown of the history succeeds: it frees no structure twice, not even those that stand in both
-- lists, and leaves both lists empty.
pub entrance_history_shutdown_total :
    (s : HistoryState)
    → AllLive s.store s.history
    → Distinct s.history
    → AllLive s.store s.lusers
    → Distinct s.lusers
    → (t : HistoryState) × (entrance_history_shutdown s ≡ some (tt, t))
      × (t.history ≡ [])
      × (t.lusers ≡ [])
unfolding entrance_history_shutdown
entrance_history_shutdown_total s live d lusers_live lusers_d =
    let (w, wrote) = write-total s live in
    let s1 : HistoryState = record s { written = w } in
    let (u, users, sound, none_left) =
      user_shutdown-Sound s.lusers s1 lusers_live lusers_d (record { live = live; distinct = d }) in
    let (t, freed_all, gone, same) = free_history-total u.history u sound.live sound.distinct in
    (t, ground arith, gone, same ∙ none_left)
