-- ===== src/Examples/Words.antt =====
-- The mark of a pointer word.
use uruv.Common.{◌≡◌, refl, arith}
use uruv.Marks.{
  is_marked, set_mark, unset_mark, is_marked_ref, get_unmarked_ref, unset_mark-set_mark,
}

unset_mark-set_mark_example :
    (is_marked 0x7fff_5a10 ≡ 0)
    × (is_marked (set_mark 0x7fff_5a10) ≡ 1)
    × (is_marked_ref (set_mark 0x7fff_5a10) ≡ 1)
    × (unset_mark (set_mark 0x7fff_5a10) ≡ 0x7fff_5a10)
    × (get_unmarked_ref (set_mark 0x7fff_5a10) ≡ 0x7fff_5a10)
    × (unset_mark 0x7fff_5a10 ≡ 0x7fff_5a10)
unset_mark-set_mark_example = unset_mark-set_mark 0x7fff_5a10 (omega arith) refl
