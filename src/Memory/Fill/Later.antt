-- ===== src/Memory/Fill/Later.antt =====
-- What a new leaf that is made leaves of the lists there were.
use uruv.Common.{ℕ, ◌+◌, ◌≤◌, ◌<◌, ◌≡◌, refl, ◌∙◌, arith, List}
use uruv.Machine.{Returns}
use uruv.Marks.{is_marked, is_marked-mod}
use uruv.Leaf.{Entry, NewLeaf}
use uruv.Store.{Store, is_object-parts, parts-is_object}
use uruv.LinkedList.{make_list}
use uruv.Memory.{Memory, alloc, fill_list, new_leaf}
use uruv.Memory.Fill.{Listed, nothing, entry, Built, fill_list-Kept}

-- The nodes and versions of lists that there were are as before, and the next free address is even.
pub record Older (s t : Store) : Type 0 where
  pub key : (a : ℕ) → a < s.top → t.key a ≡ s.key a
  pub vhead : (a : ℕ) → a < s.top → t.vhead a ≡ s.vhead a
  pub next : (a : ℕ) → a < s.top → t.next a ≡ s.next a
  pub value : (a : ℕ) → a < s.top → t.value a ≡ s.value a
  pub tracker : t.version_tracker ≡ s.version_tracker
  pub grown : s.top ≤ t.top
  pub even : is_marked t.top ≡ 0

pub new_leaf-Older :
    (m : Memory) (leaf : NewLeaf) (next : ℕ)
    → 0 < m.objects.top
    → is_marked m.objects.top ≡ 0
    → Returns (new_leaf leaf next) (λ a t. Older m.objects t.objects) m
unfolding new_leaf alloc
new_leaf-Older m leaf next room even =
    let s = m.objects in
    let start = make_list s in
    let t = fill_list (s.top + 6) (s.top + 2) leaf.entries start in
    let even₈ : is_marked start.top ≡ 0 =
      omega (arith, even, is_marked-mod s.top, is_marked-mod (s.top + 6 + 2)) in
    let kept = fill_list-Kept leaf.entries (s.top + 6) (s.top + 2) start (omega arith) in
    let even_t : is_marked t.top ≡ 0 = kept.even even₈ in
    (
      _,
      refl,
      (
        _,
        refl,
        record {
          key = λ a h. ground (arith, kept.key a);
          vhead = λ a h. ground (arith, kept.vhead a);
          next = λ a h. ground (arith, kept.next a);
          value = λ a h. rw kept.value (ground arith);
          tracker = kept.tracker;
          grown = omega (arith, kept.top);
          even = omega (arith, even_t, is_marked-mod t.top, is_marked-mod (t.top + 2));
        },
      ),
    )

Listed-start :
    (s : Store) (last : ℕ) {a : ℕ} {entries : List Entry} → Listed s last a entries → a < s.top
Listed-start s last (nothing {a} ok is_last) =
    let (big, small, even) = is_object-parts a s ok in small
Listed-start s last (entry {a} ok is_next is_key is_version rest) =
    let (big, small, even) = is_object-parts a s ok in small

-- A list from before stays what it is.
Listed-Older :
    (m t : Memory) (last : ℕ) {a : ℕ} {entries : List Entry}
    → Older m.objects t.objects
    → last < m.objects.top
    → Listed m.objects last a entries
    → Listed t.objects last a entries
Listed-Older m t last older inside (nothing {a} ok is_last) =
    let (big, small, even) = is_object-parts a m.objects ok in
    nothing (parts-is_object a t.objects big (omega (arith, older.grown)) even)
      (older.next a small ∙ is_last)
Listed-Older m t last older inside (entry {a} {b} ok is_next is_key is_version rest) =
    let (big, small, even) = is_object-parts a m.objects ok in
    let small_b = Listed-start m.objects last rest in
    entry (parts-is_object a t.objects big (omega (arith, older.grown)) even)
      (older.next a small ∙ is_next) (older.key b small_b ∙ is_key)
      (older.vhead b small_b ∙ is_version) (Listed-Older m t last older inside rest)

-- So does a leaf, if the nodes of the tree are as before.
pub Built-Older :
    (m : Memory) (leaf : NewLeaf) (next a : ℕ) (t u : Memory)
    → Built m leaf next a t
    → Older t.objects u.objects
    → u.node a ≡ t.node a
    → Built m leaf next a u
Built-Older m leaf next a t u
      (
        ok,
        is_leaf,
        status,
        count,
        is_next,
        new_next,
        (last, list, key, end, ok_last, ok_version, first),
      )
      older same =
    let (big, small, even) = is_object-parts a t.objects ok in
    let (big', small', even') = is_object-parts last t.objects ok_last in
    let (big₁, small₁, even₁) = is_object-parts (t.objects.vhead last) t.objects ok_version in
    (
      parts-is_object a u.objects big (omega (arith, older.grown)) even,
      rw same is_leaf,
      rw same status,
      rw same count,
      rw same is_next,
      rw same new_next,
      (
        last,
        rw same (Listed-Older t u last older small' list),
        older.key last small' ∙ key,
        older.next last small' ∙ end,
        parts-is_object last u.objects big' (omega (arith, older.grown)) even',
        rw (older.vhead last small') (
            parts-is_object (t.objects.vhead last) u.objects big₁ (omega (arith, older.grown))
              even₁),
        rw same (older.key (t.node a).head (Listed-start t.objects last list) ∙ first),
      ),
    )
