-- ===== src/LinkedList/Chains.antt =====
-- What a list of Uruv/LF_LL.h holds, and the list after a node is linked into it.
use uruv.Common.{
  ℕ, suc, length, ◌≤◌, ◌<◌, ◌≡◌, ◌≢◌, refl, sym, ap, ◌∙◌, arith, Option, none, some, true, false,
  inl, inr, leb, Bool-cases, ◌==◌, if◌then◌else◌, le→leb, List, [], ◌∷◌,
}
use uruv.Store.{Store, is_object}
use uruv.LinkedList.Find.{Chain, Around, Chain-is_object}

-- The value of the newest version of `key`; a tombstone counts as one.
unfoldable pub lookup : Store → (key : ℕ) → List ℕ → Option ℕ
lookup s key [] = none
lookup s key (b ∷ nodes) = if s.key b == key then some (s.value (s.vhead b)) else lookup s key nodes

-- The word of each node for its versions can be read through.
abbrev pub Versioned : Store → List ℕ → Type 0
Versioned s [] = Unit {0}
Versioned s (b ∷ nodes) = (is_object (s.vhead b) s ≡ true) × Versioned s nodes

-- The list with the node `n` at the place of `key`.
unfoldable pub with_node : Store → (key n : ℕ) → List ℕ → List ℕ
with_node s key n [] = n ∷ []
with_node s key n (b ∷ nodes) =
    if leb key (s.key b) then n ∷ b ∷ nodes else b ∷ with_node s key n nodes

pub length-with_node :
    (s : Store) (key n : ℕ) (nodes : List ℕ) → length (with_node s key n nodes) ≡ suc (length nodes)
unfolding with_node
length-with_node s key n [] = omega arith
length-with_node s key n (b ∷ nodes) = elim (Bool-cases (leb key (s.key b))) [
  | inl le ↦ rw le refl
  | inr gt ↦ rw gt (omega (arith, length-with_node s key n nodes))
]

-- The store `t` has a new node `n` between `p` and `r`, and is otherwise like `s`.
pub record Linked (s t : Store) (key value n p r : ℕ) : Type 0 where
  pub objects : (a : ℕ) → is_object a s ≡ true → is_object a t ≡ true
  pub keys : (a : ℕ) → is_object a s ≡ true → t.key a ≡ s.key a
  pub nexts : (a : ℕ) → is_object a s ≡ true → a ≢ p → t.next a ≡ s.next a
  pub vheads : (a : ℕ) → is_object a s ≡ true → t.vhead a ≡ s.vhead a
  pub values : (a : ℕ) → is_object a s ≡ true → t.value a ≡ s.value a
  pub new_object : is_object n t ≡ true
  pub new_key : t.key n ≡ key
  pub new_next : t.next n ≡ r
  pub new_version : is_object (t.vhead n) t ≡ true
  pub new_value : t.value (t.vhead n) ≡ value
  pub behind : t.next p ≡ n

-- The node before the place is not before `a`.
Around-le :
    (s : Store) (key a p r : ℕ) (nodes : List ℕ)
    → Chain s a nodes
    → Around s key a nodes p r
    → s.key a ≤ s.key p
Around-le s key a p r [] chain around = absurd around
Around-le s key a p r (b ∷ nodes) chain (inl (is_p, _, _)) = omega (arith, ap s.key is_p)
Around-le s key a p r (b ∷ nodes) (_, _, up, rest) (inr (_, around)) =
    omega (arith, Around-le s key b p r nodes rest around)

module _ (s t : Store) (key value n p r : ℕ) (new : Linked s t key value n p r) where
  apart : (a : ℕ) → s.key a ≢ s.key p → a ≢ p
  apart a ne same = ne (ap s.key same)

  -- Behind the new node nothing changes.
  kept : (a : ℕ) (nodes : List ℕ) → s.key p < s.key a → Chain s a nodes → Chain t a nodes
  kept a [] above (ok, next) =
      (new.objects a ok, new.nexts a ok (apart a (λ e. absurd (omega arith))) ∙ next)
  kept a (b ∷ nodes) above (ok, next, up, rest) =
      let ok_b = Chain-is_object s b nodes rest in
      (
        new.objects a ok,
        new.nexts a ok (apart a (λ e. absurd (omega arith))) ∙ next,
        omega (arith, new.keys a ok, new.keys b ok_b),
        kept b nodes (omega arith) rest,
      )

  pub linked-Chain :
      (a : ℕ) (nodes : List ℕ)
      → Chain s a nodes
      → s.key a < key
      → s.key r ≢ key
      → Around s key a nodes p r
      → Chain t a (with_node s key n nodes)
  unfolding with_node
  linked-Chain a [] chain low other around = absurd around
  linked-Chain a (b ∷ nodes) (ok, next, up, rest) low other (inl (is_p, is_r, le)) =
      let ok_b = Chain-is_object s b nodes rest in
      let key_r = ap s.key is_r in
      rw (le→leb key (s.key b) le) (
        new.objects a ok,
        ap t.next (sym is_p) ∙ new.behind,
        omega (arith, new.keys a ok, new.new_key),
        (
          new.new_object,
          new.new_next ∙ is_r,
          ground (arith, new.keys b ok_b, new.new_key),
          kept b nodes (omega (arith, ap s.key is_p)) rest,
        ),
      )
  linked-Chain a (b ∷ nodes) (ok, next, up, rest) low other (inr (lt, around)) =
      let ok_b = Chain-is_object s b nodes rest in
      let below = Around-le s key b p r nodes rest around in
      let gt : leb key (s.key b) ≡ false = ground arith in
      rw gt (
        new.objects a ok,
        new.nexts a ok (apart a (λ e. absurd (omega arith))) ∙ next,
        omega (arith, new.keys a ok, new.keys b ok_b),
        linked-Chain b nodes rest lt other around,
      )

  -- What the nodes of the old list hold.
  kept-lookup :
      (k a : ℕ) (nodes : List ℕ)
      → Chain s a nodes
      → Versioned s nodes
      → lookup t k nodes ≡ lookup s k nodes
  unfolding lookup
  kept-lookup k a [] chain versions = refl
  kept-lookup k a (b ∷ nodes) (ok, next, up, rest) (v, versions) =
      let ok_b = Chain-is_object s b nodes rest in
      rw
        (
          new.keys b ok_b,
          new.vheads b ok_b,
          new.values (s.vhead b) v,
          kept-lookup k b nodes rest versions,
        )
        refl

  -- The new list holds `value` under `key`, and what the old one held under any other key.
  pub linked-lookup :
      (k a : ℕ) (nodes : List ℕ)
      → Chain s a nodes
      → Versioned s nodes
      → Around s key a nodes p r
      → lookup t k (with_node s key n nodes) ≡ (if key == k then some value else lookup s k nodes)
  unfolding with_node lookup
  linked-lookup k a [] chain versions around = absurd around
  linked-lookup k a (b ∷ nodes) (ok, next, up, rest) (v, versions) (inl (is_p, is_r, le)) =
      rw (le→leb key (s.key b) le, new.new_key, new.new_value)
        (rw (kept-lookup k a (b ∷ nodes) (ok, next, up, rest) (v, versions)) refl)
  linked-lookup k a (b ∷ nodes) (ok, next, up, rest) (v, versions) (inr (lt, around)) =
      let ok_b = Chain-is_object s b nodes rest in
      let gt : leb key (s.key b) ≡ false = ground arith in
      rw
        (
          gt,
          new.keys b ok_b,
          new.vheads b ok_b,
          new.values (s.vhead b) v,
          linked-lookup k b nodes rest versions around,
        )
        (first_or_later)
    where
      first_or_later :
          (if s.key b == k
            then some (s.value (s.vhead b))
            else (if key == k then some value else lookup s k nodes))
          ≡ (if key == k
              then some value
              else (if s.key b == k then some (s.value (s.vhead b)) else lookup s k nodes))
      first_or_later = ground arith

  kept-Versioned :
      (a : ℕ) (nodes : List ℕ) → Chain s a nodes → Versioned s nodes → Versioned t nodes
  kept-Versioned a [] chain versions = tt
  kept-Versioned a (b ∷ nodes) (ok, next, up, rest) (v, versions) =
      let ok_b = Chain-is_object s b nodes rest in
      (rw (new.vheads b ok_b) (new.objects (s.vhead b) v), kept-Versioned b nodes rest versions)

  pub linked-Versioned :
      (a : ℕ) (nodes : List ℕ)
      → Chain s a nodes
      → Versioned s nodes
      → Versioned t (with_node s key n nodes)
  unfolding with_node
  linked-Versioned a [] chain versions = (new.new_version, tt)
  linked-Versioned a (b ∷ nodes) (ok, next, up, rest) (v, versions) =
      elim (Bool-cases (leb key (s.key b))) [
        | inl le ↦
            rw le (new.new_version, kept-Versioned a (b ∷ nodes) (ok, next, up, rest) (v, versions))
        | inr gt ↦
            let ok_b = Chain-is_object s b nodes rest in
            rw gt (
              rw (new.vheads b ok_b) (new.objects (s.vhead b) v),
              linked-Versioned b nodes rest versions,
            )
      ]
