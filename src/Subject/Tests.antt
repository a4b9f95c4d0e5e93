-- ===== src/Subject/Tests.antt =====
-- Runs of nats-micro/src/subject.rs and of its theorems on concrete subjects.
use nats_micro.Subject.Segments.{segment-split}
use nats_micro.Subject.Matching.{subject_matches_iff, subject_matches_iff, Matches}
use nats_micro.Subject.{split, subject_matches, segment}
use nats_micro.Prelude.{refl, ◌↔◌, some, true, false, get_elem?, none, ◌≡◌, Str, bytes}

abbrev orders : Str
orders = bytes "orders.42.created"

abbrev order_pattern : Str
order_pattern = bytes "orders.*.created"

segment_middle : segment orders 1 ≡ some (bytes "42")
unfolding segment
segment_middle = refl

segment_missing : segment orders 3 ≡ none
unfolding segment
segment_missing = refl

full_wildcard_needs_segment : subject_matches (bytes "orders.>") (bytes "orders") ≡ false
unfolding subject_matches
full_wildcard_needs_segment = refl

segment-split_example : segment orders 2 ≡ get_elem? (split orders) 2
segment-split_example = segment-split orders 2 refl

subject_matches_iff_example :
    (subject_matches order_pattern orders ≡ true) ↔ Matches (split order_pattern) (split orders)
subject_matches_iff_example = subject_matches_iff order_pattern orders
