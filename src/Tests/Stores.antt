-- ===== src/Tests/Stores.antt =====
-- The properties of identifiers and stores at concrete inputs.
use k8s_sched_demo.Persistence.Store.AllMappings.{
  get_all-lookup, to_option, names, get_all_project_sandbox_mappings, Mappings,
}
use k8s_sched_demo.Persistence.Store.Updates.{set_publishes, receive_loop}
use k8s_sched_demo.Errors.{ok}
use k8s_sched_demo.Types.Base36.Laws.{decode-generate_sandbox_id, decode_base36}
use k8s_sched_demo.Types.Ids.{new_project_id, IsSandboxId, IsProjectId}
use k8s_sched_demo.Tests.Fakes.{fake_pipelined, fake_served, fake_redis, empty_db}
use k8s_sched_demo.Types.Base36.{digits_loop, encode_base36, generate_sandbox_id}
use k8s_sched_demo.Persistence.Store.{
  project_update_channel, form_all_projects_set_key, form_project_sandbox_key,
  form_sandbox_project_key, set_commands, get_project_sandbox, set_project_sandbox,
  find_project_for_sandbox, RedisStore,
}
use k8s_sched_demo.Persistence.Redis.{apply, apply_all, put, Db}
use k8s_sched_demo.Base.{
  lookup, ◌∷◌, Avoids, trim_prefix, arith, ◌≤◌, text_eq, length, false, [], ◌+◌, if◌then◌else◌,
  none, ◌≡◌, refl, codes, strip_prefix, Text,
}

abbrev pub store : RedisStore Db
store = record { client = fake_redis; key_prefix = codes "sch:" }

abbrev pub a : Text
a = codes "a"

abbrev b : Text
b = codes "b"

a-IsSandboxId : IsSandboxId (codes "a")
unfolding strip_prefix
a-IsSandboxId = record { valid = refl; bare = refl }

b-IsSandboxId : IsSandboxId (codes "b")
unfolding strip_prefix
b-IsSandboxId = record { valid = refl; bare = refl }

a-IsProjectId : IsProjectId (codes "a")
unfolding strip_prefix
a-IsProjectId = record { valid = refl; bare = refl }

generate_sandbox_id_small : generate_sandbox_id 36 1 ≡ codes "11"
unfolding generate_sandbox_id encode_base36 digits_loop
generate_sandbox_id_small = refl

distinct : text_eq a b ≡ false
unfolding text_eq
distinct = refl

abbrev pub owned : Db
owned = (set_project_sandbox store a b empty_db).1

owner_of_b : (find_project_for_sandbox store b owned).0 ≡ ok a
unfolding find_project_for_sandbox set_project_sandbox set_commands form_sandbox_project_key
    form_project_sandbox_key form_all_projects_set_key apply_all apply put new_project_id
    strip_prefix trim_prefix text_eq
owner_of_b = refl

decode-generate_sandbox_id_example :
    (decode_base36 (generate_sandbox_id 1700000000000000000 255) ≡ 1700000000000000000 + 255)
    × (generate_sandbox_id 1700000000000000000 255 ≡ encode_base36 (1700000000000000000 + 255))
    × (length (generate_sandbox_id 1700000000000000000 255) ≤ 13)
decode-generate_sandbox_id_example =
    decode-generate_sandbox_id 1700000000000000000 255 (omega arith)

a-Avoids : Avoids 58 a
a-Avoids = (refl, tt)

set_publishes_example :
    (message : Text) × ((set_project_sandbox store a b empty_db).1.sent
      ≡ (project_update_channel, message) ∷ [])
    × (receive_loop (message ∷ [])
        ≡ record { project_id = a; sandbox_id = b; is_removal = false } ∷ [])
set_publishes_example =
    set_publishes store fake_served a b empty_db a-IsProjectId b-IsSandboxId a-Avoids

pub one_project : (fake_redis.s_members (form_all_projects_set_key store) owned).0 ≡ ok (a ∷ [])
unfolding set_project_sandbox set_commands form_all_projects_set_key apply_all apply put text_eq
one_project = refl

get_all-lookup_example :
    (m : Mappings) × ((get_all_project_sandbox_mappings store owned).0 ≡ ok m)
    × (lookup a m
        ≡ (if names a (a ∷ []) then to_option (get_project_sandbox store a owned).0 else none))
get_all-lookup_example =
    get_all-lookup store fake_served fake_pipelined (a ∷ []) a owned one_project
