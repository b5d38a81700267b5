-- ===== src/LinkedList/Kept.antt =====
-- Histories of a list of Uruv/LF_LL.h in a later store, which keeps the objects of the old one.
use uruv.Common.{ℕ, ◌≡◌, ◌≢◌, refl, ◌∙◌, none, true, ◌&&◌, ◌++◌, leb, if◌then◌else◌, List, [], ◌∷◌}
use uruv.Store.{Store, is_object}
use uruv.LinkedList.Stamps.{latest, stamp}
use uruv.LinkedList.Snapshot.{History, value_at, newest, entry, snapshot}

-- `t` has the objects of `s` with their keys, values and timestamps, up to timestamps that are new.
pub record Kept (s t : Store) : Type 0 where
  pub objects : (a : ℕ) → is_object a s ≡ true → is_object a t ≡ true
  pub keys : (a : ℕ) → is_object a s ≡ true → t.key a ≡ s.key a
  pub values : (a : ℕ) → is_object a s ≡ true → t.value a ≡ s.value a
  pub nextvs : (a : ℕ) → is_object a s ≡ true → t.nextv a ≡ s.nextv a
  pub stamps :
      (a : ℕ) → is_object a s ≡ true → stamp (latest t) (t.ts a) ≡ stamp (latest s) (s.ts a)
  pub set : (a : ℕ) → is_object a s ≡ true → s.ts a ≢ none → t.ts a ≢ none

pub History-is_object :
    (s : Store) (v : ℕ) (older : List ℕ) → History s v older → is_object v s ≡ true
History-is_object s v [] (ok, _) = ok
History-is_object s v (w ∷ older) (ok, _, _, _) = ok

module _ (s t : Store) (kept : Kept s t) where
  pub kept-History : (v : ℕ) (older : List ℕ) → History s v older → History t v older
  kept-History v [] (ok, next) = (kept.objects v ok, kept.nextvs v ok ∙ next)
  kept-History v (w ∷ older) (ok, next, set, rest) = (
    kept.objects v ok,
    kept.nextvs v ok ∙ next,
    kept.set w (History-is_object s w older rest) set,
    kept-History w older rest,
  )

  pub kept-value_at :
      (ts v : ℕ) (older : List ℕ)
      → History s v older
      → value_at t ts v older ≡ value_at s ts v older
  kept-value_at ts v [] (ok, next) = rw (kept.stamps v ok, kept.values v ok) refl
  kept-value_at ts v (w ∷ older) (ok, next, set, rest) =
      rw (kept.stamps v ok, kept.values v ok, kept-value_at ts w older rest) refl

-- What one node adds to a snapshot.
abbrev pub item : Store → (ℕ → List ℕ) → (ts low high b : ℕ) → List (ℕ × ℕ)
item s older ts low high b =
    if leb low (s.key b) && leb (s.key b) high
    then entry (s.key b) (value_at s ts (newest s b) (older b))
    else []

pub snapshot-cons :
    (s : Store) (older : ℕ → List ℕ) (ts low high b : ℕ) (nodes : List ℕ)
    → nodes ≢ []
    → snapshot s older ts low high (b ∷ nodes)
      ≡ item s older ts low high b ++ snapshot s older ts low high nodes
snapshot-cons s older ts low high b [] some_node = absurd (some_node refl)
snapshot-cons s older ts low high b (d ∷ nodes) some_node = refl

-- A list in which every node has its key and adds the same.
module _ (s t : Store) (before after : ℕ → List ℕ) (ts low high : ℕ) where
  abbrev pub Same : List ℕ → Type 0
  Same [] = Unit {0}
  Same (b ∷ nodes) = (item t after ts low high b ≡ item s before ts low high b) × Same nodes

  pub Same-snapshot :
      (nodes : List ℕ)
      → Same nodes
      → snapshot t after ts low high nodes ≡ snapshot s before ts low high nodes
  Same-snapshot [] same = refl
  Same-snapshot (b ∷ []) same = refl
  Same-snapshot (b ∷ d ∷ nodes) (e, same) = rw (e, Same-snapshot (d ∷ nodes) same) refl
