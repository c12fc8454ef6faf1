-- ===== src/Ids/Tests.antt =====
-- Instances of the theorems on identities.
use project_bourne.Prelude.{◌+◌, ◌*◌, ◌/◌, ◌%◌, ◌^◌, ◌≡◌, refl, true, String, some, arith}
use project_bourne.RemoteWorker.Requests.{is_execution_id}
use project_bourne.Ids.{encode, new_ulid}
use project_bourne.Ids.Laws.{decode, new_ulid-accepted, new_ulid-decode}

new_ulid-accepted_example : (s : String) × (new_ulid 5 7 ≡ some s) × (is_execution_id s ≡ true)
new_ulid-accepted_example = new_ulid-accepted 5 7 (omega arith)

abbrev made : String
made = encode 26 (5 * 2 ^ 80 + 7) ""

made_now : new_ulid 5 7 ≡ some made
unfolding new_ulid
made_now = refl

new_ulid-decode_example : (decode 0 made / 2 ^ 80 ≡ 5) × (decode 0 made % 2 ^ 80 ≡ 7)
new_ulid-decode_example = new_ulid-decode 5 7 made (omega arith) made_now
