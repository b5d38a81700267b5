-- ===== src/LinkedList/Snapshot.antt =====
-- What a list of Uruv/LF_LL.h held at a timestamp: of each node the newest version that is not newer.
use uruv.Common.{
  ℕ, ◌≤◌, ◌<◌, ◌≡◌, ◌≢◌, refl, arith, Option, none, some, true, false, ◌&&◌, ◌++◌, leb, ◌==◌,
  if◌then◌else◌, List, [], ◌∷◌, length,
}
use uruv.Marks.{get_unmarked_ref}
use uruv.Store.{tombstone, Store, is_object}
use uruv.LinkedList.Stamps.{latest, stamp}

-- The versions behind `v` are `older`; each of these has its timestamp.
abbrev pub History : Store → (v : ℕ) → (older : List ℕ) → Type 0
History s v [] = (is_object v s ≡ true) × (s.nextv v ≡ 0)
History s v (w ∷ older) =
    (is_object v s ≡ true) × (s.nextv v ≡ w) × (s.ts w ≢ none) × History s w older

-- The value at the timestamp `ts`, where a version with no timestamp yet has the latest one.
abbrev pub value_at : Store → (ts v : ℕ) → (older : List ℕ) → Option ℕ
value_at s ts v [] = if leb (stamp (latest s) (s.ts v)) ts then some (s.value v) else none
value_at s ts v (w ∷ older) =
    if leb (stamp (latest s) (s.ts v)) ts then some (s.value v) else value_at s ts w older

-- The newest version of a node.
abbrev pub newest : Store → ℕ → ℕ
newest s b = get_unmarked_ref (s.vhead b)

-- The nodes behind `a` are `nodes`, in the order of their keys, be their pointers marked or not.
abbrev pub Walk : Store → ℕ → List ℕ → Type 0
Walk s a [] = (is_object a s ≡ true) × (get_unmarked_ref (s.next a) ≡ 0)
Walk s a (b ∷ nodes) =
    (is_object a s ≡ true)
    × (get_unmarked_ref (s.next a) ≡ b)
    × (s.key a < s.key b)
    × Walk s b nodes

-- `older` gives for each node the versions behind the newest, which are at most `m`.
abbrev pub Histories : Store → (older : ℕ → List ℕ) → (m : ℕ) → List ℕ → Type 0
Histories s older m [] = Unit {0}
Histories s older m (b ∷ nodes) =
    History s (newest s b) (older b) × (length (older b) ≤ m) × Histories s older m nodes

-- What a value adds to the answer of a query.
abbrev pub entry : ℕ → Option ℕ → List (ℕ × ℕ)
entry key none = []
entry key (some value) = if value == tombstone then [] else (key, value) ∷ []

-- The entries at `ts` from the key `low` to the key `high`; the last node is none.
abbrev pub snapshot : Store → (ℕ → List ℕ) → (ts low high : ℕ) → List ℕ → List (ℕ × ℕ)
snapshot s older ts low high [] = []
snapshot s older ts low high (b ∷ []) = []
snapshot s older ts low high (b ∷ d ∷ nodes) =
    (if leb low (s.key b) && leb (s.key b) high
      then entry (s.key b) (value_at s ts (newest s b) (older b))
      else [])
    ++ snapshot s older ts low high (d ∷ nodes)

pub Walk-is_object : (s : Store) (a : ℕ) (nodes : List ℕ) → Walk s a nodes → is_object a s ≡ true
Walk-is_object s a [] (ok, _) = ok
Walk-is_object s a (b ∷ nodes) (ok, _, _, _) = ok

-- The first node, or null.
abbrev pub first_node : List ℕ → ℕ
first_node [] = 0
first_node (b ∷ nodes) = b

pub Walk-next :
    (s : Store) (a : ℕ) (nodes : List ℕ)
    → Walk s a nodes
    → get_unmarked_ref (s.next a) ≡ first_node nodes
Walk-next s a [] (_, next) = next
Walk-next s a (b ∷ nodes) (_, next, _, _) = next

module _ (s : Store) (older : ℕ → List ℕ) (ts low high : ℕ) where
  -- From a key above the range on.
  pub above-snapshot :
      (b : ℕ) (nodes : List ℕ)
      → Walk s b nodes
      → high < s.key b
      → snapshot s older ts low high (b ∷ nodes) ≡ []
  above-snapshot b [] walk above = refl
  above-snapshot b (d ∷ nodes) (ok, next, up, rest) above =
      let out : (leb low (s.key b) && leb (s.key b) high) ≡ false = ground arith in
      rw (out, above-snapshot d nodes rest (omega arith)) refl

  pub below-snapshot :
      (b d : ℕ) (nodes : List ℕ)
      → s.key b < low
      → snapshot s older ts low high (b ∷ d ∷ nodes) ≡ snapshot s older ts low high (d ∷ nodes)
  below-snapshot b d nodes below =
      let out : (leb low (s.key b) && leb (s.key b) high) ≡ false = ground arith in rw out refl
