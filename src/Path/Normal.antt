-- ===== src/Path/Normal.antt =====
-- normalize_path of src/main.cpp: what it leaves at the end of a path, and of a path below a root.
use ps3netsrv.Prelude.{ℕ, ◌≡◌, ◌≢◌, refl, ap, arith, Bool, true, false, List, [], ◌∷◌, ◌++◌, map}
use ps3netsrv.Path.{to_slash, push_end, strip_end, normalize_path}

-- A root as main() leaves it: slashes only, and neither a carriage return nor a slash at its end.
pub record Clean (root : List ℕ) : Type 0 where
  pub slashes : map to_slash root ≡ root
  pub no_return : strip_end 13 root ≡ root
  pub no_slash : strip_end 47 root ≡ root

map-append : (xs ys : List ℕ) → map to_slash (xs ++ ys) ≡ map to_slash xs ++ map to_slash ys
map-append [] ys = refl
map-append (x ∷ xs) ys = ap (λ t. to_slash x ∷ t) (map-append xs ys)

push-tail : (c x : ℕ) (s xs : List ℕ) → push_end c x s ≡ x ∷ xs → s ≡ xs
push-tail c x [] xs h = ground (arith, h)
push-tail c x (y ∷ ys) xs h = ground (arith, h)

push-full :
    (c x : ℕ) (xs ys : List ℕ) → push_end c x xs ≡ x ∷ xs → push_end c x (xs ++ ys) ≡ x ∷ (xs ++ ys)
push-full c x [] [] h = h
push-full c x [] (y ∷ ys) h = refl
push-full c x (z ∷ xs) ys h = refl

strip-append :
    (c : ℕ) (xs ys : List ℕ) → strip_end c xs ≡ xs → strip_end c (xs ++ ys) ≡ xs ++ strip_end c ys
strip-append c [] ys h = refl
strip-append c (x ∷ xs) ys h =
    let tail = push-tail c x (strip_end c xs) xs h in
    rw (strip-append c xs ys tail) (push-full c x xs (strip_end c ys) (rw tail at h))

pub normalize-append :
    (root below : List ℕ) (del : Bool)
    → Clean root
    → normalize_path (root ++ below) del ≡ root ++ normalize_path below del
normalize-append root below false clean =
    rw (map-append root below, clean.slashes)
      (strip-append 13 root (map to_slash below) clean.no_return)
normalize-append root below true clean =
    rw
      (
        map-append root below,
        clean.slashes,
        strip-append 13 root (map to_slash below) clean.no_return,
      )
      (strip-append 47 root (strip_end 13 (map to_slash below)) clean.no_slash)

strip_idem : (c : ℕ) (xs : List ℕ) → strip_end c (strip_end c xs) ≡ strip_end c xs
strip_idem c [] = refl
strip_idem c (x ∷ xs) = go (strip_end c xs) (strip_idem c xs)
  where
    go : (s : List ℕ) → strip_end c s ≡ s → strip_end c (push_end c x s) ≡ push_end c x s
    go [] h = ground arith
    go (y ∷ ys) h = rw h refl

map_idem : (xs : List ℕ) → map to_slash (map to_slash xs) ≡ map to_slash xs
map_idem [] = refl
map_idem (x ∷ xs) = ground (arith, map_idem xs)

map-push :
    (c x : ℕ) (s : List ℕ)
    → to_slash x ≡ x
    → map to_slash s ≡ s
    → map to_slash (push_end c x s) ≡ push_end c x s
map-push c x [] hx h = ground (arith, hx)
map-push c x (y ∷ ys) hx h = ground (arith, hx, h)

map-strip :
    (c : ℕ) (xs : List ℕ) → map to_slash xs ≡ xs → map to_slash (strip_end c xs) ≡ strip_end c xs
map-strip c [] h = refl
map-strip c (x ∷ xs) h =
    map-push c x (strip_end c xs) (ground (arith, h)) (map-strip c xs (ground (arith, h)))

-- With del_last_slash no path that normalize_path leaves is "/", whatever it was given: the root that
-- main() tests for being "/" is never equal to it.
normalize-ne-slash : (path : List ℕ) → normalize_path path true ≢ (47 ∷ [])
normalize-ne-slash path h =
    let again = strip_idem 47 (normalize_path path false) in absurd (ground (arith, rw h at again))
