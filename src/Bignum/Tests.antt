-- ===== src/Bignum/Tests.antt =====
-- The numbers of src/bignum.h on concrete values.
use ixcoin.Common.{◌≡◌, arith}
use ixcoin.Common.Int.{negsuc}
use ixcoin.Bignum.{set_vch, get_vch, set_int64}
use ixcoin.Bignum.Ints.{set_int64_lem}
use ixcoin.Bignum.Instance.{simple, simple-laws}
use ixcoin.Bignum.Vch.{set_vch-get_vch}

set_vch-get_vch_example : set_vch simple (get_vch simple (negsuc 299)) ≡ negsuc 299
set_vch-get_vch_example = set_vch-get_vch simple simple-laws (negsuc 299)

set_int64_lem_example : set_int64 simple (negsuc 299) ≡ negsuc 299
set_int64_lem_example = set_int64_lem simple simple-laws (negsuc 299) (omega arith)
