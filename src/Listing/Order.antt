-- ===== src/Listing/Order.antt =====
-- Repeated calls of process_read_dir_entry_cmd of src/main.cpp list a directory.
use ps3netsrv.Prelude.{
  ℕ, zero, suc, ◌-◌, ◌^◌, ◌<◌, ◌≡◌, true, if◌then◌else◌, some, List, [], ◌∷◌, ◌++◌,
}
use ps3netsrv.Env.{Os, Stat}
use ps3netsrv.Session.{Session, send_all}
use ps3netsrv.Read.Critical.{TakesAll}
use ps3netsrv.Listing.{
  is_listed_name, Version, no_entry, stat_entry, put_dir, process_read_dir_entry_cmd,
}

-- `n` calls one after the other.
abbrev pub calls : {os : Os} → ℕ → Version → Session os → Session os
calls zero v s = s
calls (suc n) v s = calls n v (process_read_dir_entry_cmd v s).1

-- What a directory with these names is told as: for every name that is reported its result and the
-- name itself, and at the end the result for no entry.
abbrev pub messages : Version → (List ℕ → Stat) → List (List ℕ) → List (List ℕ)
messages v st [] = no_entry v ∷ []
messages v st (name ∷ names) =
    if is_listed_name name
    then stat_entry v (st name) name ∷ name ∷ messages v st names
    else messages v st names

abbrev pub reported : List (List ℕ) → ℕ
reported [] = 0
reported (name ∷ names) = if is_listed_name name then suc (reported names) else reported names

module _ {os : Os} (v : Version) (dirpath : List ℕ) (st : List ℕ → Stat) (takes : TakesAll os)
    (known : (name : List ℕ) (w : Os.World os)
      → is_listed_name name ≡ true
      → Os.stat_file os (dirpath ++ 47 ∷ name) w ≡ some (st name))
    (sizes : (name : List ℕ) → (st name).file_size < 2 ^ 64 - 1) where
  -- What a call does that has an entry to report.
  abbrev told : List ℕ → List (List ℕ) → Session os → Session os
  told name names s = (send_all name (send_all (stat_entry v (st name) name) (put_dir names s)).1).1
