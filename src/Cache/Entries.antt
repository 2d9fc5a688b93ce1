-- ===== src/Cache/Entries.antt =====
-- The LRU cache of pkg/cache/lru.go: TTL, stale-while-revalidate, tags. Keys and tags are types
-- whose equality is decided; a time is its distance from Go's zero time, which is 0. `MaxSize`, `TTL`
-- and `StaleTTL` are only tested for being positive, so a number of 0 stands for a negative one too.
-- The map from keys to list elements is the list itself, searched by key; the index of tags is the
-- list of its pairs of a tag and a key, so that a tag with no key has no entry in it.
use dragonscale.Prelude.{
  ℕ, ◌+◌, Bool, true, false, not, ◌&&◌, List, [], ◌∷◌, Option, none, some, ltb, ◌==◌, ite,
  if◌then◌else◌,
}

pub record Entry (K V T : Type 0) : Type 0 where
  pub key : K
  pub value : V
  pub tags : List T
  pub expires_at : ℕ
  pub stale_at : ℕ

-- `notifies` tells whether `OnEvict` is set, `refreshes` whether `FetchFunc` is.
pub record Options : Type 0 where
  pub max_size : ℕ
  pub ttl : ℕ
  pub stale_ttl : ℕ
  pub notifies : Bool
  pub refreshes : Bool

-- `entries` is `evictList`, the front first; `evicted` the calls of `OnEvict` so far.
pub record Lru (K V T : Type 0) : Type 0 where
  pub entries : List (Entry K V T)
  pub tags : List (T × K)
  pub opts : Options
  pub evicted : List (K × V)

unfoldable pub new : {K V T : Type 0} → Options → Lru K V T
new opts = record { entries = []; tags = []; opts = opts; evicted = [] }

module _ {K V T : Type 0} (dec : Discrete K) where
  -- `c.items[key]`.
  unfoldable pub find : K → List (Entry K V T) → Option (Entry K V T)
  find k [] = none
  find k (e ∷ es) = ite (dec e.key k) (some e) (find k es)

  -- `evictList.Remove`, by key.
  unfoldable pub remove : K → List (Entry K V T) → List (Entry K V T)
  remove k [] = []
  remove k (e ∷ es) = ite (dec e.key k) es (e ∷ remove k es)

module _ {T : Type 0} (dec_tag : Discrete T) where
  unfoldable pub mem_tag : T → List T → Bool
  mem_tag t [] = false
  mem_tag t (u ∷ us) = ite (dec_tag u t) true (mem_tag t us)

module _ {K T : Type 0} (dec : Discrete K) (dec_tag : Discrete T) where
  -- Whether the index has the key under the tag.
  unfoldable pub has_tag : T → K → List (T × K) → Bool
  has_tag t k [] = false
  has_tag t k ((u, j) ∷ ps) =
      ite (dec_tag u t) (ite (dec j k) true (has_tag t k ps)) (has_tag t k ps)

  -- `addTagsLocked`.
  unfoldable pub add_tags : K → List T → List (T × K) → List (T × K)
  add_tags k [] ps = ps
  add_tags k (t ∷ ts) ps = add_tags k ts (if has_tag t k ps then ps else (t, k) ∷ ps)

  unfoldable pub delete_pair : T → K → List (T × K) → List (T × K)
  delete_pair t k [] = []
  delete_pair t k ((u, j) ∷ ps) =
      let rest = delete_pair t k ps in
      ite (dec_tag u t) (ite (dec j k) rest ((u, j) ∷ rest)) ((u, j) ∷ rest)

  -- `removeTagsLocked`.
  unfoldable pub remove_tags : K → List T → List (T × K) → List (T × K)
  remove_tags k [] ps = ps
  remove_tags k (t ∷ ts) ps = remove_tags k ts (delete_pair t k ps)

module _ {K T : Type 0} (dec_tag : Discrete T) where
  -- The keys under a tag.
  unfoldable pub keys_of : T → List (T × K) → List K
  keys_of t [] = []
  keys_of t ((u, k) ∷ ps) = let rest = keys_of t ps in ite (dec_tag u t) (k ∷ rest) rest

-- The deadlines that `SetWithOptions` computes.
unfoldable pub expiry : ℕ → ℕ → ℕ
expiry now ttl = if ltb 0 ttl then now + ttl else 0

unfoldable pub staleness : ℕ → ℕ → ℕ → ℕ
staleness now ttl stale_ttl =
    if ltb 0 ttl then (if ltb 0 stale_ttl then now + ttl + stale_ttl else 0) else 0

module _ {K V T : Type 0} where
  -- `evictList.Back()`.
  unfoldable pub back : List (Entry K V T) → Option (Entry K V T)
  back [] = none
  back (e ∷ []) = some e
  back (e ∷ f ∷ es) = back (f ∷ es)

  -- Past the hard deadline: `staleAt` if there is one, else `expiresAt`.
  unfoldable pub is_expired : ℕ → Entry K V T → Bool
  is_expired now e =
      if e.expires_at == 0
      then false
      else ltb (if e.stale_at == 0 then e.expires_at else e.stale_at) now

  -- Past the TTL, with a stale window.
  unfoldable pub is_stale : ℕ → Entry K V T → Bool
  is_stale now e = not (e.expires_at == 0) && (ltb e.expires_at now && not (e.stale_at == 0))

  unfoldable pub keys_from : List (Entry K V T) → List K
  keys_from [] = []
  keys_from (e ∷ es) = e.key ∷ keys_from es

  unfoldable pub pairs : List (Entry K V T) → List (K × V)
  pairs [] = []
  pairs (e ∷ es) = (e.key, e.value) ∷ pairs es

  unfoldable pub reversed : List (Entry K V T) → List (Entry K V T) → List (Entry K V T)
  reversed [] acc = acc
  reversed (e ∷ es) acc = reversed es (e ∷ acc)
