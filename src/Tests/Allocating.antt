-- ===== src/Tests/Allocating.antt =====
-- A free block of 16 words at 32, of which 6 words are used.
use slate_language.Common.{refl, [], ◌∷◌, arith, if◌then◌else◌, ◌==◌}
use slate_language.Header
use slate_language.Header.{id_hash_free}
use slate_language.Memory.{Memory, object_word_size, object_total_size, object_after}
use slate_language.Allocation.{find_first_free, split_block}
use slate_language.Allocation.Split.{Split, FirstFit, split_block-Split, find_first_free-FirstFit}

abbrev wide : Memory
wide a = if a == 32 then Header.set_idhash 0 id_hash_free else if a == 40 then 16 else 0

split_block-Split_example : Split wide 32 6 (split_block wide 32 6 99)
unfolding object_word_size Header.format Header.set_idhash
split_block-Split_example = split_block-Split wide 32 6 99 (omega arith) (omega arith) (omega arith)

-- A used block of 4 words at 128, a free one of 4 words at 160 and a free one of 8 words at 192.
abbrev searched : Memory
searched a =
    if a == 136
    then 4
    else if a == 160
    then Header.set_idhash 0 id_hash_free
    else if a == 168
    then 4
    else if a == 192
    then Header.set_idhash 0 id_hash_free
    else if a == 200
    then 8
    else 0

find_first_free-FirstFit_example :
    FirstFit searched 64 (128 ∷ 160 ∷ 192 ∷ []) (find_first_free 129 searched 128 128 128 64)
unfolding object_after object_total_size object_word_size Header.format Header.set_idhash
find_first_free-FirstFit_example =
    find_first_free-FirstFit searched 128 128 128 64 (128 ∷ 160 ∷ 192 ∷ [])
      (refl, omega arith, (refl, omega arith, (refl, omega arith, refl))) (omega arith)
