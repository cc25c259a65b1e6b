-- ===== src/Lsn/Tests.antt =====
-- The theorems on positions and on their checkpoints at concrete inputs.
use elasticrelay.Common.{
  ◌≡◌, ◌⊎◌, refl, none, some, true, [], arith, Bytes, codes, str_eq, if◌then◌else◌, insert,
}
use elasticrelay.Common.Split.{split}
use elasticrelay.Lsn.Hex.{hex_value, scan, parse_uint}
use elasticrelay.Lsn.Position.{
  parts, sign, read_pair, are_hex, is_valid_lsn, compare_lsn, lsn_to_uint64, uint64_to_lsn,
  manager_compare_lsn,
}
use elasticrelay.Lsn.Orders.{compare_lsn_orders}
use elasticrelay.Lsn.RoundTrip.{lsn_to_uint64-uint64_to_lsn}
use elasticrelay.Lsn.Store.{
  LsnCheckpoint, LsnManager, absent, null, or_empty, checkpoint_for, load_checkpoints_from_file,
  load_checkpoint, save_checkpoint, load_checkpoint-save_checkpoint,
}
use elasticrelay.Lsn.Codec.{encode, decode, at_most_one, decode-encode}

lsn_to_uint64-uint64_to_lsn_example : lsn_to_uint64 (uint64_to_lsn 4319823160) ≡ some 4319823160
lsn_to_uint64-uint64_to_lsn_example = lsn_to_uint64-uint64_to_lsn 4319823160 (omega arith)

abbrev lower_case : Bytes
lower_case = codes "1/17b4538"

lower_case_value : lsn_to_uint64 lower_case ≡ some 4319823160
unfolding lsn_to_uint64 read_pair parts split parse_uint scan hex_value
lower_case_value = refl

abbrev earlier : Bytes
earlier = codes "0/FFFFFFFF"

earlier_value : lsn_to_uint64 earlier ≡ some 4294967295
unfolding lsn_to_uint64 read_pair parts split parse_uint scan hex_value
earlier_value = refl

compare_lsn_orders_example :
    (compare_lsn earlier lower_case ≡ some (sign 4294967295 4319823160))
    × (manager_compare_lsn earlier lower_case ≡ some (sign 4294967295 4319823160))
compare_lsn_orders_example =
    compare_lsn_orders earlier lower_case 4294967295 4319823160 earlier_value lower_case_value

abbrev long_part : Bytes
long_part = codes "1/123456789"

earlier_valid : is_valid_lsn earlier ≡ true
unfolding is_valid_lsn are_hex parts split parse_uint scan hex_value str_eq
earlier_valid = refl

long_part_valid : is_valid_lsn long_part ≡ true
unfolding is_valid_lsn are_hex parts split parse_uint scan hex_value str_eq
long_part_valid = refl

-- LSNToUint64 refuses it.
long_part_unread : lsn_to_uint64 long_part ≡ none
unfolding lsn_to_uint64 read_pair parts split parse_uint scan hex_value
long_part_unread = refl

abbrev job : Bytes
job = codes "orders"

abbrev slot : Bytes
slot = codes "slot_1"

abbrev fresh : LsnManager
fresh = record { checkpoint_file = absent; last_committed_lsn = []; last_received_lsn = lower_case }

abbrev saved : LsnCheckpoint
saved = record (checkpoint_for job slot 30 1000 fresh) { last_update = 5 }

save_fits :
    at_most_one (
      insert job
        (record saved { last_update = 7 })
        (or_empty (load_checkpoints_from_file encode decode absent)))
    ≡ true
unfolding insert load_checkpoints_from_file
save_fits = refl

load_checkpoint-save_checkpoint_example :
    ((fresh.checkpoint_file ≡ null) × (save_checkpoint encode decode saved 7 none fresh ≡ none))
    ⊎ ((lm' : LsnManager) × (save_checkpoint encode decode saved 7 none fresh ≡ some (true, lm'))
        × (load_checkpoint encode decode job lm' ≡ (
            if str_eq job job
            then some (record saved { last_update = 7 })
            else load_checkpoint encode decode job fresh)))
load_checkpoint-save_checkpoint_example =
    load_checkpoint-save_checkpoint encode decode at_most_one decode-encode saved 7 fresh job
      save_fits
