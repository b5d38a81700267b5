-- ===== src/LinkedList/Versions.antt =====
-- What a list of Uruv/LF_LL.h holds after a new version, or a timestamp, has been put into it.
use uruv.Common.{
  ℕ, ◌≤◌, ◌<◌, ◌≡◌, ◌≢◌, refl, ap, arith, Option, some, true, inl, inr, ◌==◌, if◌then◌else◌,
  Bool-cases, List, [], ◌∷◌,
}
use uruv.Marks.{is_marked}
use uruv.Store.{Store, is_object, is_object-parts, parts-is_object}
use uruv.LinkedList.Find.{Chain, Around}
use uruv.LinkedList.Chains.{lookup, Versioned}
use uruv.LinkedList.Update.{with_version}

module _ (s : Store) (key value p r : ℕ) (f : ℕ → Option ℕ) (room : 0 < s.top)
    (even : is_marked s.top ≡ 0) (is_key : s.key r ≡ key) where
  abbrev pub rewritten : Store
  rewritten = record (with_version s r value) { ts = f }

  still : (a : ℕ) → is_object a s ≡ true → is_object a rewritten ≡ true
  still a ok =
      let (big, small, free) = is_object-parts a s ok in
      parts-is_object a rewritten big (omega arith) free

  pub rewritten-Chain : (a : ℕ) (nodes : List ℕ) → Chain s a nodes → Chain rewritten a nodes
  rewritten-Chain a [] (ok, next) = (still a ok, next)
  rewritten-Chain a (b ∷ nodes) (ok, next, up, rest) =
      (still a ok, next, up, rewritten-Chain b nodes rest)

  pub rewritten-Versioned : (nodes : List ℕ) → Versioned s nodes → Versioned rewritten nodes
  rewritten-Versioned [] versions = tt
  rewritten-Versioned (b ∷ nodes) (v, versions) = (
    elim (Bool-cases (b == r)) [
      | inl same ↦ rw same (parts-is_object s.top rewritten room (omega arith) even)
      | inr other ↦ rw other (still (s.vhead b) v)
    ],
    rewritten-Versioned nodes versions,
  )

  -- A node other than `r` holds what it held.
  same_value :
      (b : ℕ)
      → b ≢ r
      → is_object (s.vhead b) s ≡ true
      → rewritten.value (rewritten.vhead b) ≡ s.value (s.vhead b)
  same_value b ne v =
      let (_, small, _) = is_object-parts (s.vhead b) s v in
      let e : rewritten.vhead b ≡ s.vhead b = ground arith in rw e (ground arith)

  new_value : rewritten.value (rewritten.vhead r) ≡ value
  new_value = let e : rewritten.vhead r ≡ s.top = ground arith in rw e (ground arith)

  later-lookup :
      (k a : ℕ) (nodes : List ℕ)
      → Chain s a nodes
      → Versioned s nodes
      → s.key r ≤ s.key a
      → lookup rewritten k nodes ≡ lookup s k nodes
  unfolding lookup
  later-lookup k a [] chain versions le = refl
  later-lookup k a (b ∷ nodes) (ok, next, up, rest) (v, versions) le =
      rw
        (
          same_value b (λ e. absurd (omega (arith, ap s.key e))) v,
          later-lookup k b nodes rest versions (omega arith),
        )
        refl

  pub rewritten-lookup :
      (k a : ℕ) (nodes : List ℕ)
      → Chain s a nodes
      → Versioned s nodes
      → Around s key a nodes p r
      → lookup rewritten k nodes ≡ (if key == k then some value else lookup s k nodes)
  unfolding lookup
  rewritten-lookup k a [] chain versions place = absurd place
  rewritten-lookup k a (b ∷ nodes) (ok, next, up, rest) (v, versions) (inl (is_p, is_r, le)) =
      rw
        (
          later-lookup k b nodes rest versions (omega (arith, ap s.key is_r)),
          ← is_r,
          new_value,
          is_key,
        )
        (ground arith)
  rewritten-lookup k a (b ∷ nodes) (ok, next, up, rest) (v, versions) (inr (lt, place)) =
      rw
        (
          same_value b (λ e. absurd (omega (arith, ap s.key e))) v,
          rewritten-lookup k b nodes rest versions place,
        )
        (ground arith)

-- Timestamps do not matter to what the list holds.
module _ (s : Store) (f : ℕ → Option ℕ) where
  pub stamped-Chain :
      (a : ℕ) (nodes : List ℕ) → Chain s a nodes → Chain (record s { ts = f }) a nodes
  stamped-Chain a [] chain = chain
  stamped-Chain a (b ∷ nodes) (ok, next, up, rest) = (ok, next, up, stamped-Chain b nodes rest)

  pub stamped-Versioned :
      (nodes : List ℕ) → Versioned s nodes → Versioned (record s { ts = f }) nodes
  stamped-Versioned [] versions = tt
  stamped-Versioned (b ∷ nodes) (v, versions) = (v, stamped-Versioned nodes versions)

  pub stamped-lookup :
      (k : ℕ) (nodes : List ℕ) → lookup (record s { ts = f }) k nodes ≡ lookup s k nodes
  unfolding lookup
  stamped-lookup k [] = refl
  stamped-lookup k (b ∷ nodes) = rw (stamped-lookup k nodes) refl
