-- ===== src/LinkedList/Past/After.antt =====
-- The past of a list in the stores that `insert` ends in.
use mathlib.Core.Path.{subst}
use uruv.Common.{
  Bool, ℕ, suc, ◌+◌, ◌≤◌, ◌<◌, ◌^◌, ◌≡◌, refl, sym, ap, ◌∙◌, arith, Option, none, true, false, leb,
  ◌&&◌, if◌then◌else◌, List, [], ◌∷◌, ◌++◌,
}
use uruv.Common.Arrays.{update}
use uruv.Store.{Store}
use uruv.LinkedList.Stamps.{latest, Timed}
use uruv.LinkedList.Find.{Around, last_key}
use uruv.LinkedList.Chains.{lookup, with_node, length-with_node, linked-Chain}
use uruv.LinkedList.Insert.{WellFormed, around, linked, linked-Linked}
use uruv.LinkedList.Update.{Newer, with_version}
use uruv.LinkedList.Versions.{stamped-Chain, rewritten-Chain}
use uruv.LinkedList.Snapshot.{Histories, newest}
use uruv.LinkedList.Kept.{Kept, item, kept-History, kept-value_at, Same, Same-snapshot}
use uruv.LinkedList.Past.{Past, Chain-Walk}
use uruv.LinkedList.Past.Renewed
use uruv.LinkedList.Past.Linked

-- `t` is `s` with timestamps that are new.
module _ (s : Store) (f : ℕ → Option ℕ) (timed : Timed (latest s) s.ts f) (older : ℕ → List ℕ)
    (m : ℕ) where
  stamped-Kept : Kept s (record s { ts = f })
  stamped-Kept = record {
    objects = λ a ok. ok;
    keys = λ a ok. refl;
    values = λ a ok. refl;
    nextvs = λ a ok. refl;
    stamps = λ a ok. (timed a).0;
    set = λ a ok. (timed a).1;
  }

  stamped-Same :
      (ts low high : ℕ) (nodes : List ℕ)
      → Histories s older m nodes
      → Same s (record s { ts = f }) older older ts low high nodes
  stamped-Same ts low high [] histories = tt
  stamped-Same ts low high (b ∷ nodes) (history, few, histories) = (
    rw (kept-value_at s (record s { ts = f }) stamped-Kept ts (newest s b) (older b) history) refl,
    stamped-Same ts low high nodes histories,
  )

  stamped-Histories :
      (nodes : List ℕ)
      → Histories s older m nodes
      → Histories (record s { ts = f }) older (suc m) nodes
  stamped-Histories [] histories = tt
  stamped-Histories (b ∷ nodes) (history, few, histories) = (
    kept-History s (record s { ts = f }) stamped-Kept (newest s b) (older b) history,
    omega arith,
    stamped-Histories nodes histories,
  )

no_entry : (x : Bool) → ◌≡◌ {A = List (ℕ × ℕ)} (if x then [] else []) []
no_entry true = refl
no_entry false = refl

module _ (s : Store) (older : ℕ → List ℕ) (m head b : ℕ) (nodes : List ℕ) (key value : ℕ)
    (wf : WellFormed s head (b ∷ nodes)) (low : s.key head < key)
    (high : key ≤ last_key s head (b ∷ nodes)) (bound : s.top + 4 ≤ 2 ^ 64)
    (histories : Histories s older m (b ∷ nodes)) where
  abbrev P : Store → Type 0
  P = Past s older m head (b ∷ nodes)

  pub stamped-Past : (f : ℕ → Option ℕ) → Timed (latest s) s.ts f → P (record s { ts = f })
  stamped-Past f timed = (
    b ∷ nodes,
    older,
    λ e. cc,
    Chain-Walk (record s { ts = f }) head (b ∷ nodes) (omega arith)
        (stamped-Chain s f head (b ∷ nodes) wf.chain),
    stamped-Histories s f timed older m (b ∷ nodes) histories,
    omega arith,
    wf.clock,
    λ ts from to before.
        Same-snapshot s (record s { ts = f }) older older ts from to (b ∷ nodes)
          (stamped-Same s f timed older m ts from to (b ∷ nodes) histories),
  )

  pub renewed-Past : (p r : ℕ) (t : Store) → s.key r ≡ key → Newer s r value t → P t
  renewed-Past p r t is_key (f, e, timed, behind_set) = subst P (sym e) (
    b ∷ nodes,
    Renewed.newer s value r f wf.room bound wf.even timed behind_set older m,
    λ e. cc,
    Chain-Walk (record (with_version s r value) { ts = f }) head (b ∷ nodes) (omega arith)
        (rewritten-Chain s key value p r f wf.room wf.even is_key head (b ∷ nodes) wf.chain),
    Renewed.renewed-Histories s value r f wf.room bound wf.even timed behind_set older m (b ∷ nodes)
        wf.versions histories,
    omega arith,
    wf.clock,
    λ ts from to before.
        Renewed.renewed-snapshot s value r f wf.room bound wf.even timed behind_set older m ts from
          to (b ∷ nodes) before wf.versions histories,
  )

  pub linked-Past :
      (p r : ℕ) (f : ℕ → Option ℕ)
      → Around s key head (b ∷ nodes) p r
      → lookup s key (b ∷ nodes) ≡ none
      → Timed (latest s) (update s.ts s.top none) f
      → P (linked s head (b ∷ nodes) key value wf p r f)
  linked-Past p r f place absent timed =
      let all = b ∷ nodes in
      let (ok_p, ok_r, next, ne) = around s key head p r all wf.chain place absent in
      let t = linked s head all key value wf p r f in
      let newer = Linked.newer s head all key value wf p r f ok_p bound timed older m in
      let new = linked-Linked s head all key value wf p r f ok_p in
      (
        with_node s key (s.top + 2) all,
        newer,
        Linked.with_node-some s key (s.top + 2) all,
        Chain-Walk t head (with_node s key (s.top + 2) all) (omega arith)
            (linked-Chain s t key value (s.top + 2) p r new head all wf.chain low ne place),
        Linked.linked-Histories s head all key value wf p r f ok_p bound timed older m head all
            wf.chain histories,
        omega (arith, length-with_node s key (s.top + 2) all),
        wf.clock,
        λ ts from to before.
            let (xs, ys, e, e') =
              Linked.linked-snapshot s head all key value wf p r f ok_p bound timed older m ts from
                to head all wf.chain histories place in
            let hidden : leb (latest s) ts ≡ false = ground arith in
            let nothing : item t newer ts from to (s.top + 2) ≡ [] =
              Linked.new-item s head all key value wf p r f ok_p bound timed older m ts from to
              ∙ rw hidden (no_entry (leb from key && leb key to)) in
            e' ∙ ap (λ zs. xs ++ (zs ++ ys)) nothing ∙ sym e,
      )
