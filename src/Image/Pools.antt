-- ===== src/Image/Pools.antt =====
-- `_entrance_image_readdir` of src/daemon/entrance_image.c: which files become images of a pool.
use entrance.Common.{◌≡◌, refl, ap, sym, subst, Bool, true, false, ◌↔◌, List, [], ◌∷◌, some, Str}
use mathlib.Core.List.{Memᴰ}
use entrance.Image.{Files, FileInfo, is_target, targets, entrance_image_readdir}

module _ (fs : Files) where
  found_target :
      (p : Str) (files : List FileInfo)
      → Memᴰ p (targets fs files)
      → (f : FileInfo) × Memᴰ f files × (f.path ≡ p) × (is_target fs f ≡ true)
  unfolding targets
  found_target p [] m = elim m [ ]
  found_target p (f ∷ files) m = go (is_target fs f) refl m (found_target p files)
    where
      go :
          (b : Bool)
          → is_target fs f ≡ b
          → Memᴰ p (elim b [ true ↦ f.path ∷ targets fs files | false ↦ targets fs files ])
          → (Memᴰ p (targets fs files)
              → (g : FileInfo) × Memᴰ g files × (g.path ≡ p) × (is_target fs g ≡ true))
          → (g : FileInfo) × Memᴰ g (f ∷ files) × (g.path ≡ p) × (is_target fs g ≡ true)
      go true e (Memᴰ.head q) ih = (f, Memᴰ.head refl, sym q, e)
      go true e (Memᴰ.tail n) ih = let r = ih n in (r.0, Memᴰ.tail r.1, r.2, r.3)
      go false e n ih = let r = ih n in (r.0, Memᴰ.tail r.1, r.2, r.3)

  kept_target :
      (f : FileInfo) (files : List FileInfo)
      → Memᴰ f files
      → is_target fs f ≡ true
      → Memᴰ f.path (targets fs files)
  unfolding targets
  kept_target f [] m t = elim m [ ]
  kept_target f (g ∷ files) (Memᴰ.head e) t =
      rw (subst (λ x. is_target fs x ≡ true) e t, targets)
        (Memᴰ.head (ap (λ (x : FileInfo). x.path) e))
  kept_target f (g ∷ files) (Memᴰ.tail m) t = go (is_target fs g) (kept_target f files m t)
    where
      go :
          (b : Bool)
          → Memᴰ f.path (targets fs files)
          → Memᴰ f.path (elim b [ true ↦ g.path ∷ targets fs files | false ↦ targets fs files ])
      go true n = Memᴰ.tail n
      go false n = n

  -- A directory that can be read yields the paths of its regular files that do not begin with a
  -- dot and that the image loader can load, and of no others.
  pub entrance_image_readdir_lem :
      (dir p : Str) (files : List FileInfo)
      → fs.stat_ls dir ≡ some files
      → Memᴰ p (entrance_image_readdir fs dir)
        ↔ ((f : FileInfo) × Memᴰ f files × (f.path ≡ p) × (is_target fs f ≡ true))
  unfolding entrance_image_readdir
  entrance_image_readdir_lem dir p files e =
      rw (e, entrance_image_readdir)
        (
          λ m. found_target p files m,
          λ (f, m, q, t). subst (λ x. Memᴰ x (targets fs files)) q (kept_target f files m t),
        )
