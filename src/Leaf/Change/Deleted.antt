-- ===== src/Leaf/Change/Deleted.antt =====
-- Uruv/Leaf_node.h: `delete_leaf`, run alone, of a key that the leaf holds with a value.
use uruv.Common.{
  ℕ, ◌+◌, ◌^◌, ◌≤◌, ◌<◌, ◌≡◌, ◌≢◌, refl, ap, ◌∙◌, true, Option, none, some, [], ◌∷◌, ◌==◌, ◌⊎◌, inl,
  inr, if◌then◌else◌, List, length, ==_refl, ≢→==,
}
use uruv.Machine.{Returns, Returns-bind, Returns-weaken, Returns-both}
use uruv.Store.{Store, tombstone, is_object}
use uruv.LinkedList.{updated, insert, find, read}
use uruv.LinkedList.Find.{Around, last_key, FoundRight, find-Returns}
use uruv.LinkedList.Chains.{lookup}
use uruv.LinkedList.Insert.{WellFormed}
use uruv.LinkedList.Update.{Newer, stamped_Timed, read-Returns}
use uruv.LinkedList.Stamps.{latest, Timed, Stamped}
use uruv.LinkedList.Versions.{stamped-Chain, stamped-Versioned, stamped-lookup}
use uruv.LinkedList.Overwrite.{Overwritten, Renewed, insert-Overwritten, insert-Renewed, holder}
use uruv.Memory.{Memory, on_store, is_node}
use uruv.Memory.Lift.{with_objects, on_store-Returns, on_objects-load}
use uruv.Leaf.Change.{Outcome, changed, delete_leaf}

stamped-last_key :
    (s : Store) (f : ℕ → Option ℕ) (a : ℕ) (nodes : List ℕ)
    → last_key (record s { ts = f }) a nodes ≡ last_key s a nodes
stamped-last_key s f a [] = refl
stamped-last_key s f a (b ∷ nodes) = stamped-last_key s f b nodes

module _ (m : Memory) (leaf : ℕ) (nodes : List ℕ) (key : ℕ)
    (wf : WellFormed m.objects (m.node leaf).head nodes) where
  -- A version that is a tombstone is in front of the versions of the key, and timestamps may have been
  -- set; nothing else has changed.
  abbrev pub DeletedBy : Memory → Type 0
  DeletedBy t =
      WellFormed t.objects (m.node leaf).head nodes
      × ((k : ℕ)
          → lookup t.objects k nodes
            ≡ (if key == k then some tombstone else lookup m.objects k nodes))
      × (t ≡ with_objects t.objects m)
      × ((m.objects.top ≤ t.objects.top) × (t.objects.top ≤ m.objects.top + 2))
      × ((l r : ℕ) × Around m.objects key (m.node leaf).head nodes l r
          × Newer m.objects r tombstone t.objects)

  abbrev pub Deleted : Outcome × ℕ → Memory → Type 0
  Deleted r t = (r.0 ≡ changed) × DeletedBy t

  module _ (low : m.objects.key (m.node leaf).head < key)
      (high : key ≤ last_key m.objects (m.node leaf).head nodes) (value : ℕ)
      (held : lookup m.objects key nodes ≡ some value) (live : value ≢ tombstone)
      (bound : m.objects.top ≤ 2 ^ 64) (fuel left : ℕ) (enough : length nodes ≤ fuel) where
    abbrev s : Store
    s = m.objects

    abbrev h : ℕ
    h = (m.node leaf).head

    module _ (f : ℕ → Option ℕ) (timed : Timed (latest s) s.ts f) where
      abbrev stamped : Memory
      stamped = with_objects (record s { ts = f }) m

      stamped-WellFormed : WellFormed stamped.objects h nodes
      stamped-WellFormed = record {
        chain = stamped-Chain s f h nodes wf.chain;
        versions = stamped-Versioned s f nodes wf.versions;
        room = wf.room;
        even = wf.even;
        clock = wf.clock;
      }

      -- The value that is there is no tombstone.
      put :
          (l r : ℕ) (t : Store)
          → Around s key h nodes l r
          → (((s.value (s.vhead r) ≡ tombstone) × Stamped (s.vhead r) stamped.objects t)
              ⊎ Newer stamped.objects r tombstone t)
          → Newer s r tombstone t
      put l r t place (inl (bad, set)) =
          let (ok_r, ok_h, is_key, here) =
            holder m.objects key (m.node leaf).head l r nodes wf.chain wf.versions place
              (λ e. cc (held, e)) in
          absurd (live cc)
      put l r t place (inr (g, e, timed', set)) = (g, e, stamped_Timed s f g timed timed', set)

      -- The call of `insert` after `read`, which may have set a timestamp.
      write :
          Returns
            (on_store (insert fuel left h key tombstone))
            (λ r t. (r.0 ≡ updated) × DeletedBy t)
            stamped
      write =
          let o = stamped.objects in
          let high' : key ≤ last_key o h nodes = rw (stamped-last_key s f h nodes) high in
          let held' : lookup o key nodes ≢ none = λ e. cc (stamped-lookup s f key nodes, held, e) in
          let p = insert fuel left h key tombstone in
          Returns-weaken (on_store p) _ _ stamped
            (on_store-Returns p _ stamped (
              Returns-both p (Overwritten o h nodes key tombstone stamped-WellFormed)
                (Renewed o h nodes key tombstone stamped-WellFormed low high' held' bound) o
                (insert-Overwritten o h nodes key tombstone stamped-WellFormed low high' held' bound
                  fuel left enough)
                (insert-Renewed o h nodes key tombstone stamped-WellFormed low high' held' bound
                  fuel left enough)))
            (λ r t (((e, (wf', finds), later), (_, (l, q, place, how))), same). (
              e,
              (
                wf',
                λ k.
                    finds k
                    ∙ ap (λ x. if key == k then some tombstone else x) (stamped-lookup s f k nodes),
                same,
                later,
                (l, q, place, put l q t.objects place how),
              ),
            ))

    -- At the node of the key.
    abbrev Write : ℕ → Memory → Type 0
    Write v t =
        (v ≡ value)
        × ((f : ℕ → Option ℕ) × (timed : Timed (latest s) s.ts f) × (t ≡ stamped f timed))

    read-Write : (r : ℕ) (l : ℕ) → Around s key h nodes l r → Returns (on_store (read r)) Write m
    read-Write r l place =
        let (ok_r, ok_h, is_key, here) =
          holder m.objects key (m.node leaf).head l r nodes wf.chain wf.versions place
            (λ e. cc (held, e)) in
        let same_value : s.value (s.vhead r) ≡ value = cc (here, held) in
        Returns-weaken (on_store (read r)) _ Write m
          (on_store-Returns (read r) _ m (read-Returns s r ok_r ok_h wf.clock))
          (λ v t ((is, (f, e, timed, set)), whole).
            (is ∙ same_value, (f, timed, whole ∙ ap (λ o. with_objects o m) e)))

    -- Run alone on a leaf, frozen or not, whose list is not, `delete_leaf` of a key that the list holds
    -- behind its head with a value writes a tombstone over it.
    pub delete_leaf-Deleted :
        is_node leaf m ≡ true → Returns (delete_leaf fuel left leaf key) Deleted m
    unfolding delete_leaf
    delete_leaf-Deleted ok = (
      m,
      rw ok refl,
      Returns-bind (on_store (find fuel key h)) _ _ Deleted m
          (on_store-Returns (find fuel key h) (FoundRight s key h nodes) m
            (find-Returns s key nodes fuel h wf.chain enough low high))
          (λ found t ((same, (l, r, is, place)), whole).
            let e : t ≡ m = whole ∙ ap (λ o. with_objects o m) same in
            let (ok_r, ok_h, is_key, here) =
              holder m.objects key (m.node leaf).head l r nodes wf.chain wf.versions place
                (λ e. cc (held, e)) in
            rw (is, e)
              (
                m,
                on_objects-load (is_object r) m ok_r,
                rw (is_key, ==_refl key)
                    (Returns-bind (on_store (read r)) _ Write Deleted m (read-Write r l place)
                      (λ v u (is_v, (f, timed, e)).
                        rw (is_v, e, ≢→== value tombstone live)
                          (Returns-bind (on_store (insert fuel left h key tombstone)) _ _ Deleted
                            (stamped f timed) (write f timed) (λ r t (e, by). rw e (refl, by))))),
              )),
    )
