-- ===== src/LinkedList/EntryAt.antt =====
-- The loop over the versions in `range_query` of Uruv/LF_LL.h, run alone, and the entry of one node.
use uruv.Common.{
  ℕ, zero, suc, ◌<◌, ◌≡◌, ◌≢◌, refl, ap, ◌∙◌, arith, Option, none, some, true, false, inl, inr, leb,
  ◌==◌, ≢→==, Bool-cases, if◌then◌else◌, List, [], ◌∷◌, length,
}
use uruv.Machine.{Prog, ret, ◌>>=◌, Returns, Returns-bind}
use uruv.Tracker.{is_node}
use uruv.Store.{tombstone, Store, is_object, is_object-parts, load_value, load_key}
use uruv.LinkedList.Walks.{version_at, is_newer, entry_at}
use uruv.LinkedList.Stamps.{latest, stamp, Timed, Stamped, Timed-trans, init_ts-Returns}
use uruv.LinkedList.Kept.{History-is_object}
use uruv.LinkedList.Snapshot.{History, value_at, newest, entry}

-- A timestamp that is set.
stamp-some : (now : ℕ) (o : Option ℕ) → o ≢ none → o ≡ some (stamp now o)
stamp-some now none set = absurd (set refl)
stamp-some now (some t) set = refl

pub not_null : (s : Store) (a : ℕ) → is_object a s ≡ true → (a == 0) ≡ false
not_null s a ok = ≢→== a 0 (λ e. absurd (let parts = is_object-parts a s ok in omega arith))

-- The loop found a version with that value, or none.
abbrev Version : Store → Option ℕ → ℕ → Type 0
Version s none v = v ≡ 0
Version s (some value) v = (is_object v s ≡ true) × (s.value v ≡ value)

module _ (s : Store) (f : ℕ → Option ℕ) (ts : ℕ) (timed : Timed (latest s) s.ts f) where
  abbrev t : Store
  t = record s { ts = f }

  -- The test of the loop.
  newer :
      (v : ℕ)
      → f v ≢ none
      → is_newer (f v) ts ≡ (if leb (stamp (latest s) (s.ts v)) ts then false else true)
  unfolding is_newer
  newer v set =
      let known : f v ≡ some (stamp (latest s) (s.ts v)) =
        stamp-some (latest s) (f v) set ∙ ap some (timed v).0 in
      rw known (ground arith)

  version_at-Returns :
      (older : List ℕ) (fuel v : ℕ)
      → History s v older
      → f v ≢ none
      → suc (length older) < fuel
      → Returns (version_at fuel ts v) (λ r u. (u ≡ t) × Version s (value_at s ts v older) r) t
  unfolding version_at
  version_at-Returns older zero v history set enough = absurd (omega arith)
  version_at-Returns [] (suc zero) v history set enough = absurd (omega arith)
  version_at-Returns [] (suc (suc fuel)) v (ok, next) set enough = rw (not_null s v ok) (
    t,
    rw ok refl,
    rw (newer v set) (elim (Bool-cases (leb (stamp (latest s) (s.ts v)) ts)) [
      | inl old ↦ rw old (refl, (ok, refl))
      | inr new ↦ rw new (t, rw ok refl, rw next (refl, refl))
    ]),
  )
  version_at-Returns (w ∷ older) (suc fuel) v (ok, next, set_w, history) set enough =
      rw (not_null s v ok) (
        t,
        rw ok refl,
        rw (newer v set) (elim (Bool-cases (leb (stamp (latest s) (s.ts v)) ts)) [
          | inl old ↦ rw old (refl, (ok, refl))
          | inr new ↦ rw new (
            t,
            rw ok refl,
            rw next (version_at-Returns older fuel w history ((timed w).1 set_w) (omega arith)),
          )
        ]),
      )

-- `t` is `s` up to timestamps.
abbrev pub Timely : Store → Store → Type 0
Timely s t = (f : ℕ → Option ℕ) × (t ≡ record s { ts = f }) × Timed (latest s) s.ts f

module _ (s : Store) (older : ℕ → List ℕ) (ts : ℕ)
    (clock : is_node s.version_tracker.tail s.version_tracker ≡ true) where
  abbrev pub value : ℕ → Option ℕ
  value b = value_at s ts (newest s b) (older b)

  abbrev pub Entry : ℕ → List (ℕ × ℕ) → Store → Type 0
  Entry b res t = (res ≡ entry (s.key b) (value b)) × Timely s t

  -- What follows the loop.
  abbrev push : (b version : ℕ) → Prog Store (List (ℕ × ℕ))
  push b version = do
    val ← load_value version
    k ← load_key b
    ret (if val == tombstone then [] else (k, val) ∷ [])

  pushed :
      (b : ℕ) (g : ℕ → Option ℕ) (r : ℕ) (x : Option ℕ)
      → Timed (latest s) s.ts g
      → is_object b s ≡ true
      → Version s x r
      → value b ≡ x
      → Returns (if r == 0 then ret [] else push b r) (Entry b) (record s { ts = g })
  pushed b g r none timed ok null is = rw (null, is) (refl, (g, refl, timed))
  pushed b g r (some x) timed ok (ok_r, e) is = rw (not_null s r ok_r) (
    record s { ts = g },
    rw ok_r refl,
    (record s { ts = g }, rw ok refl, (rw (e, is) refl, (g, refl, timed))),
  )

  -- With fuel for one step more than the node has versions, `entry_at` ends and gives the entry of the
  -- value at the timestamp; it changes timestamps only.
  pub entry_at-Returns :
      (fuel b : ℕ) (f : ℕ → Option ℕ)
      → Timed (latest s) s.ts f
      → is_object b s ≡ true
      → History s (newest s b) (older b)
      → suc (length (older b)) < fuel
      → Returns (entry_at fuel ts b) (Entry b) (record s { ts = f })
  unfolding entry_at
  entry_at-Returns fuel b f timed ok history enough =
      let ok_v = History-is_object s (newest s b) (older b) history in
      (
        record s { ts = f },
        rw ok refl,
        Returns-bind _ _ (λ _ t. Stamped (newest s b) (record s { ts = f }) t) (Entry b)
            (record s { ts = f }) (init_ts-Returns (record s { ts = f }) (newest s b) ok_v clock)
            (λ _ t (g, e, timed', set).
              let timed₂ = Timed-trans (latest s) s.ts f g timed timed' in
              rw e (
                Returns-bind _ _ (λ r u. (u ≡ record s { ts = g }) × Version s (value b) r)
                  (Entry b) (record s { ts = g })
                  (version_at-Returns s g ts timed₂ (older b) fuel (newest s b) history set enough)
                  (λ r u (same, found). rw same (pushed b g r (value b) timed₂ ok found refl)))),
      )
