-- ===== src/BpTree/Claim.antt =====
-- Uruv/BPTree.h: threads that claim the work at one node through `help_idx`, in any interleaving.
use uruv.Common.{ℕ, ◌≡◌, ◌≢◌, refl, Bool, true, Option, none, some, inl, inr, ==_refl}
use uruv.Machine.{Prog, ret, atomic}
use uruv.Machine.Endings.{Option-cases}
use uruv.Machine.Pool.{Rules, System, Reach, Safe, IsSafe, Reach-no_fault, Reach-Post, Along-free}
use uruv.Memory.{Memory, is_node, set_node}
use uruv.BpTree.{claim_help}

module _ (a : ℕ) (idx : ℕ → ℕ) where
  -- Once it is set, the claim stays.
  record Follows (s t : Memory) : Type 0 where
    stays : is_node a s ≡ true → is_node a t ≡ true
    claim : (i : ℕ) → (s.node a).internal.help_idx ≡ some i → (t.node a).internal.help_idx ≡ some i

  Follows-refl : (s : Memory) → Follows s s
  Follows-refl s = record { stays = λ h. h; claim = λ i e. e }

  -- A thread that won claims that its index is the one that stands there.
  claim_rules : Rules Memory Bool
  claim_rules = record {
    Inv = λ m. is_node a m ≡ true;
    Limit = λ m. Unit;
    Follows = Follows;
    Post = λ i won t. won ≡ true → (t.node a).internal.help_idx ≡ some (idx i);
    follows_refl = Follows-refl;
    follows_trans = λ s t u f g. record {
      stays = λ h. g.stays (f.stays h);
      claim = λ i e. g.claim i (f.claim i e);
    };
  }

  abbrev claimed : ℕ → Memory → Memory
  claimed i m =
      set_node a (record (m.node a) { internal = record (m.node a).internal { help_idx = some i } })
        m

  claimed-Follows :
      (i : ℕ) (m : Memory) → (m.node a).internal.help_idx ≡ none → Follows m (claimed i m)
  claimed-Follows i m free = record { stays = λ h. h; claim = λ j e. absurd cc }

  claim_help-Safe : (i : ℕ) (s : Memory) → Safe claim_rules i (claim_help a (idx i)) s
  unfolding claim_help claim_rules
  claim_help-Safe i s t o ok = (
    t,
    rw ok refl,
    (λ _. ok),
    Follows-refl t,
    elim (Option-cases (t.node a).internal.help_idx) [
      | inr (j, e) ↦ rw e (λ u o inv won. absurd cc)
      | inl e ↦ rw e (λ u o' inv. elim (Option-cases (u.node a).internal.help_idx) [
        | inr (j, e') ↦
            (u, rw (inv, e') refl, (λ _. inv), Follows-refl u, rw e' (λ v o inv won. absurd cc))
        | inl e' ↦ (
          claimed (idx i) u,
          rw (inv, e') refl,
          (λ _. inv),
          claimed-Follows (idx i) u e',
          rw e' (λ v o'' inv' won. o''.claim (idx i) (rw (==_refl a) refl)),
        )
      ])
    ],
  )

  -- The threads, each about to claim the node with its own index.
  abbrev pub claimants : Memory → System Memory Bool
  claimants m = record { mem = m; thread = λ i. claim_help a (idx i) }

  -- In any interleaving of threads that claim the work at one node, each with an index of its own, the
  -- index of a thread that has won stands in `help_idx`, so all that have won have the same index; and
  -- no thread is about to do what is undefined.
  pub claim_help-agree :
      (m : Memory) (s : System Memory Bool)
      → is_node a m ≡ true
      → Reach (claimants m) s
      → ((i j : ℕ)
          → s.thread i ≡ ret true
          → s.thread j ≡ ret true
          → ((s.mem.node a).internal.help_idx ≡ some (idx i)) × (idx i ≡ idx j))
        × ((i : ℕ) (f : Memory → Option Memory) (k : Memory → Prog Memory Bool)
            → s.thread i ≡ atomic f k
            → f s.mem ≢ none)
  unfolding claim_rules
  claim_help-agree m s ok reach =
      let start : IsSafe claim_rules (claimants m) = record {
        inv = ok;
        safe = λ i. claim_help-Safe i m;
      } in
      (
        λ i j won_i won_j.
            let at_i : (s.mem.node a).internal.help_idx ≡ some (idx i) =
              Reach-Post claim_rules i true start reach (Along-free reach) won_i refl in
            let at_j : (s.mem.node a).internal.help_idx ≡ some (idx j) =
              Reach-Post claim_rules j true start reach (Along-free reach) won_j refl in
            (at_i, cc),
        λ i f k. Reach-no_fault claim_rules i f k start reach (Along-free reach),
      )
