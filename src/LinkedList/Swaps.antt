-- ===== src/LinkedList/Swaps.antt =====
-- `vCAS` of Uruv/LF_LL.h on one node, by any number of threads: what they rely on.
pub mod InitTs
pub mod Threads
pub mod WaitFree
use uruv.Common.{
  ℕ, suc, ◌+◌, ◌-◌, ◌≤◌, ◌<◌, ◌^◌, ◌≡◌, ◌≢◌, refl, sym, ap, ◌∙◌, arith, Bool, Option, none, some,
  true, false, inl, inr, ◌⊎◌, ◌==◌, ==→≡, ==_refl, ≢→==, Bool-cases, if◌then◌else◌,
}
use mathlib.Core.Path.{subst}
use uruv.Common.Arrays.{update}
use uruv.Machine.{Prog, ret, atomic, cas, ◌>>=◌, ◌>>◌}
use uruv.Machine.Pool.{
  Rules, System, Reach, Along, Safe, IsSafe, Reach-no_fault, Reach-Post, Reach-IsSafe,
}
use uruv.Machine.Endings.{Option-cases}
use uruv.Marks.{is_marked, unset_mark, is_marked-mod, unset_mark-div}
use uruv.Tracker.{is_node, get_latest_timestamp}
use uruv.Store.{Store, is_object, is_object-parts, parts-is_object}
use uruv.LinkedList.{init_ts, vcas, publish_version}
use uruv.LinkedList.Update.{with_version}

-- Later stores have the objects of earlier ones, with their values.
pub record Follows (s t : Store) : Type 0 where
  pub grows : s.top ≤ t.top
  pub values : (a : ℕ) → a < s.top → t.value a ≡ s.value a

pub Follows-refl : (s : Store) → Follows s s
Follows-refl s = record { grows = omega arith; values = λ a h. refl }

pub Follows-trans : (s t u : Store) → Follows s t → Follows t u → Follows s u
Follows-trans s t u p q = record {
  grows = omega (arith, p.grows, q.grows);
  values = λ a h. q.values a (omega (arith, p.grows)) ∙ p.values a h;
}

-- An object stays one.
pub later-is_object :
    (a : ℕ) (s t : Store) → Follows s t → is_object a s ≡ true → is_object a t ≡ true
later-is_object a s t o ok =
    let (big, small, even) = is_object-parts a s ok in
    parts-is_object a t big (omega (arith, o.grows)) even

pub stamped-Follows : (s : Store) (f : ℕ → Option ℕ) → Follows s (record s { ts = f })
stamped-Follows s f = record { grows = omega arith; values = λ a h. refl }

module _ (start : Store) (r : ℕ) (old new : ℕ → ℕ) where
  -- The version behind `v` if it was made since the start.
  abbrev pub below : ℕ → ℕ
  below v = if v == start.top then start.vhead r else v - 2

  -- The versions made since the start stand one behind the other in the order in which they were
  -- made, the last of them the newest of the node. Each was put by a thread in front of the value
  -- that it expected.
  pub record Ladder (s : Store) : Type 0 where
    pub node : is_object r s ≡ true
    pub newest : s.vhead r ≡ below s.top
    pub newest_object : is_object (s.vhead r) s ≡ true
    pub rungs : (v : ℕ) → start.top ≤ v → v < s.top → is_marked v ≡ 0 → s.nextv v ≡ below v
    pub made :
        (v : ℕ)
        → start.top ≤ v
        → v < s.top
        → is_marked v ≡ 0
        → (i : ℕ) × (s.value v ≡ new i) × (s.value (below v) ≡ old i) × (old i ≢ new i)
    pub even : is_marked s.top ≡ 0
    pub grown : (0 < start.top) × (start.top ≤ s.top)
    pub small : s.top ≤ 2 ^ 64
    pub clock : is_node s.version_tracker.tail s.version_tracker ≡ true
    pub tracker : s.version_tracker ≡ start.version_tracker

  -- When the store ended at `w`, the newest version was `below w`.
  abbrev pub Moment : ℕ → Store → Type 0
  Moment w t = (start.top ≤ w) × (w ≤ t.top) × (is_marked w ≡ 0)

  -- The newest version had the old value at one moment, and the next version has the new one, if
  -- that is another.
  abbrev pub Swapped : ℕ → Store → Type 0
  Swapped i t =
      (w : ℕ) × Moment w t
      × (t.value (below w) ≡ old i)
      × ((old i ≡ new i) ⊎ ((w < t.top) × (t.value w ≡ new i)))

  -- The newest version had another value at one moment.
  abbrev pub Differed : ℕ → Store → Type 0
  Differed i t = (w : ℕ) × Moment w t × (t.value (below w) ≢ old i)

  -- What a result of thread `i` says.
  abbrev pub Verdict : Bool → ℕ → Store → Type 0
  Verdict true i t = Swapped i t
  Verdict false i t = Differed i t

  abbrev pub swap_rules : Rules Store Bool
  swap_rules = record {
    Inv = Ladder;
    Limit = λ s. s.top ≤ 2 ^ 64;
    Follows = Follows;
    Post = λ i won t. Verdict won i t;
    follows_refl = Follows-refl;
    follows_trans = Follows-trans;
  }

  -- The newest version that a node had at the start is an object from before.
  pub Ladder-inside : Ladder start → start.vhead r < start.top
  Ladder-inside l =
      let (_, small, _) = is_object-parts (start.vhead r) start l.newest_object in small

  below-lt :
      (v : ℕ) (t : Store) → start.vhead r < start.top → start.top ≤ v → v ≤ t.top → below v < t.top
  below-lt v t inside le lt = ground arith

  pub Swapped-later :
      (i : ℕ) (s t : Store) → start.vhead r < start.top → Follows s t → Swapped i s → Swapped i t
  Swapped-later i s t inside o (w, (from, to, even), was, next) = (
    w,
    (from, omega (arith, o.grows), even),
    o.values (below w) (below-lt w s inside from to) ∙ was,
    elim next [
      | inl same ↦ inl same
      | inr (lt, is) ↦ inr (omega (arith, o.grows), o.values w lt ∙ is)
    ],
  )

  pub Differed-later :
      (i : ℕ) (s t : Store) → start.vhead r < start.top → Follows s t → Differed i s → Differed i t
  Differed-later i s t inside o (w, (from, to, even), differs) = (
    w,
    (from, omega (arith, o.grows), even),
    λ e. differs (sym (o.values (below w) (below-lt w s inside from to)) ∙ e),
  )

  pub stamped-Ladder : (s : Store) (f : ℕ → Option ℕ) → Ladder s → Ladder (record s { ts = f })
  stamped-Ladder s f l = record {
    node = l.node;
    newest = l.newest;
    newest_object = l.newest_object;
    rungs = l.rungs;
    made = l.made;
    even = l.even;
    grown = l.grown;
    small = l.small;
    clock = l.clock;
    tracker = l.tracker;
  }

  -- The store after a new version has been put in front of the newest.
  module _ (i : ℕ) (s : Store) (inv : Ladder s) where
    abbrev pub pushed : Store
    pushed = with_version s r (new i)

    pub pushed-Follows : Follows s pushed
    pushed-Follows = record {
      grows = omega arith;
      values = λ a h. rw (≢→== a s.top (λ e. absurd (omega arith))) refl;
    }

    newest_lt : s.vhead r < s.top
    newest_lt = let (_, small, _) = is_object-parts (s.vhead r) s inv.newest_object in small

    pub pushed-is_object : is_object s.top pushed ≡ true
    pushed-is_object =
        parts-is_object s.top pushed (omega (arith, inv.grown)) (omega arith) inv.even

    abbrev Made : Store → ℕ → Type 0
    Made t v = (j : ℕ) × (t.value v ≡ new j) × (t.value (below v) ≡ old j) × (old j ≢ new j)

    pushed-Made :
        start.vhead r < start.top
        → s.value (s.vhead r) ≡ old i
        → old i ≢ new i
        → (v : ℕ) → start.top ≤ v
        → v < s.top + 2
        → is_marked v ≡ 0
        → Made pushed v
    pushed-Made inside is_old change v from to even = elim (Bool-cases (v == s.top)) [
      | inl same ↦
          let e = ==→≡ v s.top same in
          let o : pushed.value (below v) ≡ old i =
            rw (e, ← inv.newest) (pushed-Follows.values (s.vhead r) newest_lt ∙ is_old) in
          (i, rw same refl, o, change)
      | inr other ↦
          let lt : v < s.top = ground (arith, inv.even, is_marked-mod v, is_marked-mod s.top) in
          let (j, is_new, was, ne) = inv.made v from lt even in
          (
            j,
            pushed-Follows.values v lt ∙ is_new,
            pushed-Follows.values (below v) (below-lt v s inside from (omega arith)) ∙ was,
            ne,
          )
    ]

    pub pushed-Ladder :
        start.vhead r < start.top
        → s.value (s.vhead r) ≡ old i
        → old i ≢ new i
        → s.top + 2 ≤ 2 ^ 64
        → Ladder pushed
    pushed-Ladder inside is_old change small = record {
      node = later-is_object r s pushed pushed-Follows inv.node;
      newest = rw (==_refl r) (ground (arith, inv.grown));
      newest_object = rw (==_refl r) pushed-is_object;
      rungs = λ v from to even. elim (Bool-cases (v == s.top)) [
        | inl same ↦ rw same (rw (==→≡ v s.top same) inv.newest)
        | inr other ↦
            rw other (
              inv.rungs v from (ground (arith, inv.even, is_marked-mod v, is_marked-mod s.top))
                even)
      ];
      made = pushed-Made inside is_old change;
      even = omega (arith, inv.even, is_marked-mod s.top, is_marked-mod (s.top + 2));
      grown = omega (arith, inv.grown);
      small = small;
      clock = inv.clock;
      tracker = inv.tracker;
    }
