-- ===== src/Tests/Lifecycle.antt =====
-- The life of a handle at a concrete session.
use evnx_crypto.Base.Outcome.{ok, err}
use evnx_crypto.Base.{List, [], ◌∷◌, ◌≡◌, inl, some, refl, arith}
use evnx_crypto.Tests.Data.{id, plaintext}
use evnx_crypto.Tests.Machine.{null_pointer}
use evnx_crypto.Tests.Toy.{crates}
use evnx_crypto.Tests.ToyLaws.{mlkem-IsMlKem, zeroize-IsWiping}
use evnx_crypto.Wasm.Handles.{VaultKeyHandle}
use evnx_crypto.Wasm.Machine.Classes.{vault_key, unused, place_of, value_of}
use evnx_crypto.Wasm.Machine.Ends.{Wipes}
use evnx_crypto.Wasm.Machine.Lasting.{AllKeep}
use evnx_crypto.Wasm.Machine.Lifecycle.{handle_life}
use evnx_crypto.Wasm.Machine.Memory.{Memory, Call, Reply, fresh}
use evnx_crypto.Wasm.Machine.Run.{run, run_all}

-- The first key, of the handle 0, is made, and then another one is made and destroyed.
abbrev others : List Call
others = Call.create_vault_key ∷ Call.destroy_vault_key 1 ∷ Call.generate_salt ∷ []

abbrev start : Memory crates
start = fresh crates 3

abbrev made : Memory crates
made = (run crates null_pointer start Call.create_vault_key).1

abbrev aged : Memory crates
aged = run_all crates null_pointer others made

abbrev dead : Memory crates
dead =
    run_all crates null_pointer (Call.create_vault_key ∷ [])
      (run crates null_pointer aged (Call.destroy_vault_key 0)).1

made_by_code :
    (run crates null_pointer (run_all crates null_pointer [] start) Call.create_vault_key).0
    ≡ ok (Reply.handle 0)
unfolding run run_all
made_by_code = refl

others-AllKeep : AllKeep vault_key 0 others
others-AllKeep = (ground arith, (ground arith, (ground arith, tt)))

handle_life_example :
    (h : VaultKeyHandle) × (place_of start vault_key 0 ≡ unused)
    × (value_of made vault_key 0 ≡ some h)
    × (value_of aged vault_key 0 ≡ some h)
    × ((run crates null_pointer aged (Call.destroy_vault_key 0)).0 ≡ ok Reply.done)
    × Wipes crates null_pointer vault_key h aged
        (run crates null_pointer aged (Call.destroy_vault_key 0)).1
    × (run crates null_pointer dead (Call.encrypt_vault plaintext 0 id 8)
        ≡ (err null_pointer, dead))
unfolding run_all
handle_life_example =
    handle_life crates null_pointer 3 [] others (Call.create_vault_key ∷ []) Call.create_vault_key
      (Call.encrypt_vault plaintext 0 id 8) vault_key 0 zeroize-IsWiping mlkem-IsMlKem refl
      others-AllKeep (inl refl) made_by_code
