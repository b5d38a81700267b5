-- ===== src/Memory/Lift.antt =====
-- Programs on the objects of Store, run as programs on the memory, and changes of one node.
use uruv.Common.{Bool, true, none, some, if◌then◌else◌, ℕ, sym, ap, fun_ext, arith, ◌≡◌, refl}
use uruv.Machine.{Prog, ret, spin, atomic, Returns}
use uruv.Store.{Store}
use uruv.Common.Arrays.{update}
use uruv.Memory.{Memory, Node, set_node, on_objects, on_store}

abbrev pub with_objects : Store → Memory → Memory
with_objects s m = record m { objects = s }

-- What a program on the objects returns alone, it returns on the memory, and changes nothing else.
pub on_store-Returns :
    {A : Type 0} (p : Prog Store A) (P : A → Store → Type 0) (m : Memory)
    → Returns p P m.objects
    → Returns (on_store p) (λ a t. P a t.objects × (t ≡ with_objects t.objects m)) m
on_store-Returns (ret a) P m h = (h, refl)
on_store-Returns spin P m h = h
on_store-Returns (atomic f k) P m (s, e, h) = (
  with_objects s m,
  rw (on_objects, e) refl,
  on_store-Returns (k m.objects) P (with_objects s m) h,
)

-- A load from the objects.
pub on_objects-load :
    (ok : Store → Bool) (m : Memory)
    → ok m.objects ≡ true
    → on_objects (λ s. if ok s then some s else none) m ≡ some m
on_objects-load ok m e =
    let here : (if ok m.objects then some m.objects else none) ≡ some m.objects = rw e refl in
    ap (λ x. elim x [ none ↦ none | some s ↦ some (with_objects s m) ]) here

pub set_node-set_node :
    (a : ℕ) (x y : Node) (m : Memory) → set_node a y (set_node a x m) ≡ set_node a y m
set_node-set_node a x y m =
    let same : update (update m.node a x) a y ≡ update m.node a y = fun_ext λ b. ground arith in
    λ i. record m { node = same i }

pub set_node-node : (a : ℕ) (m : Memory) → set_node a (m.node a) m ≡ m
set_node-node a m =
    let same : update m.node a (m.node a) ≡ m.node = fun_ext λ b. ground (arith, at b) in
    λ i. record m { node = same i }
  where
    at : (b : ℕ) → b ≡ a → m.node a ≡ m.node b
    at b e = ap m.node (sym e)
