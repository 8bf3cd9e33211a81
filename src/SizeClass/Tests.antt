-- ===== src/SizeClass/Tests.antt =====
-- src/bits.rs, the size classes at the sizes of the code's own tests.
use mimalloc_rs.Prelude.{◌≡◌, refl}
use mimalloc_rs.SizeClass.{bin, wsize_from_size, small_bin, large_bin, mi_clz, bit_length}

bin_smallest : bin 0 ≡ 1
unfolding bin wsize_from_size small_bin
bin_smallest = refl

bin_words : bin 72 ≡ 9
unfolding bin wsize_from_size large_bin mi_clz bit_length
bin_words = refl

bin_kib : bin 1024 ≡ 24
unfolding bin wsize_from_size large_bin mi_clz bit_length
bin_kib = refl

bin_largest : bin 524288 ≡ 60
unfolding bin wsize_from_size large_bin mi_clz bit_length
bin_largest = refl
