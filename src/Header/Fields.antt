-- ===== src/Header/Fields.antt =====
-- The four fields of a header do not disturb one another.
use slate_language.Common.{ℕ, ◌%◌, ◌^◌, ◌≡◌, arith}
use slate_language.Header.{
  markbit, hash, pin_count, format, set_mark, set_idhash, set_pin_count, set_format,
}

pub markbit-set_mark : (header color : ℕ) → markbit (set_mark header color) ≡ color % 2
unfolding markbit set_mark
markbit-set_mark header color = omega arith

pub hash-set_mark : (header color : ℕ) → hash (set_mark header color) ≡ hash header
unfolding hash set_mark
hash-set_mark header color = omega arith

pub pin_count-set_mark : (header color : ℕ) → pin_count (set_mark header color) ≡ pin_count header
unfolding pin_count set_mark
pin_count-set_mark header color = omega arith

pub format-set_mark : (header color : ℕ) → format (set_mark header color) ≡ format header
unfolding format set_mark
format-set_mark header color = omega arith

pub markbit-set_idhash : (header value : ℕ) → markbit (set_idhash header value) ≡ markbit header
unfolding markbit set_idhash
markbit-set_idhash header value = omega arith

pub hash-set_idhash : (header value : ℕ) → hash (set_idhash header value) ≡ value % 2 ^ 23
unfolding hash set_idhash
hash-set_idhash header value = omega arith

pub pin_count-set_idhash :
    (header value : ℕ) → pin_count (set_idhash header value) ≡ pin_count header
unfolding pin_count set_idhash
pin_count-set_idhash header value = omega arith

pub format-set_idhash : (header value : ℕ) → format (set_idhash header value) ≡ format header
unfolding format set_idhash
format-set_idhash header value = omega arith

pub markbit-set_pin_count :
    (header count : ℕ) → markbit (set_pin_count header count) ≡ markbit header
unfolding markbit set_pin_count
markbit-set_pin_count header count = omega arith

pub hash-set_pin_count : (header count : ℕ) → hash (set_pin_count header count) ≡ hash header
unfolding hash set_pin_count
hash-set_pin_count header count = omega arith

pub pin_count-set_pin_count :
    (header count : ℕ) → pin_count (set_pin_count header count) ≡ count % 2 ^ 6
unfolding pin_count set_pin_count
pin_count-set_pin_count header count = omega arith

pub format-set_pin_count : (header count : ℕ) → format (set_pin_count header count) ≡ format header
unfolding format set_pin_count
format-set_pin_count header count = omega arith

pub markbit-set_format : (header type : ℕ) → markbit (set_format header type) ≡ markbit header
unfolding markbit set_format
markbit-set_format header type = omega arith

pub hash-set_format : (header type : ℕ) → hash (set_format header type) ≡ hash header
unfolding hash set_format
hash-set_format header type = omega arith

pub pin_count-set_format : (header type : ℕ) → pin_count (set_format header type) ≡ pin_count header
unfolding pin_count set_format
pin_count-set_format header type = omega arith

pub format-set_format : (header type : ℕ) → format (set_format header type) ≡ type % 2 ^ 2
unfolding format set_format
format-set_format header type = omega arith
