-- ===== src/Tests/Words.antt =====
-- The tag of src/vm/inline.hpp at concrete words.
use slate_language.Common.{◌^◌, ◌≡◌, ◌↔◌, true, arith}
use slate_language.Word.{object_to_smallint, smallint_to_object, smallint_fits_object}
use slate_language.Word.Tagging.{smallint_fits_object_iff}

smallint_fits_object_iff_example :
    (smallint_fits_object (2 ^ 62) ≡ true)
    ↔ (object_to_smallint (smallint_to_object (2 ^ 62)) ≡ 2 ^ 62)
smallint_fits_object_iff_example = smallint_fits_object_iff (2 ^ 62) (omega arith)
