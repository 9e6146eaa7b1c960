-- ===== src/Ufs/Tests.antt =====
-- Runs of the code of ufs.c, and the properties at concrete inputs.
use qfenix.Common.{◌++◌, ℕ, zero, suc, ◌≡◌, true, false, Option, none, some, List, [], ◌∷◌, length}
use qfenix.Ufs.{
  UfsAttribute, b_number_lu, lu_num, UfsCommon, UfsNode, ufs_tag, Ufs, ufs_load,
  ufs_provisioning_execute,
}
use qfenix.Ufs.Laws.{no_ufs}
use qfenix.Ufs.Rounds.{until_refused, round, ufs_provisioning_execute-until_refused}

-- Tags with all attributes but those that would make them another kind.
abbrev common_tag : UfsAttribute → Option (List ℕ)
common_tag a = some (1 ∷ [])

abbrev body_tag : UfsAttribute → Option (List ℕ)
body_tag b_number_lu = none
body_tag _ = some (1 ∷ [])

abbrev last_tag : UfsAttribute → Option (List ℕ)
last_tag b_number_lu = none
last_tag lu_num = none
last_tag _ = some (1 ∷ [])

abbrev some_file : List UfsNode
some_file = ufs_tag common_tag ∷ ufs_tag body_tag ∷ ufs_tag last_tag ∷ []

abbrev some_ufs : Ufs
some_ufs = (ufs_load length true (some some_file) no_ufs).1

abbrev some_common : UfsCommon
some_common = record {
  number_lu = 1;
  boot_enable = true;
  descr_access_en = true;
  init_power_mode = 1;
  high_priority_lun = 1;
  secure_removal_type = 1;
  init_active_icc_level = 1;
  periodic_rtc_update = 1;
  config_descr_lock = true;
  wb = true;
  preserve_user_space_en = true;
  write_booster_buffer_type = true;
  shared_wb_buffer_size = 1;
}

-- A device that takes three parts.
abbrev take_three : ℕ → ℕ × ℕ
take_three n = elim n [ zero ↦ (7, 0) | suc left ↦ (0, left) ]

ufs_provisioning_execute-until_refused_example :
    ufs_provisioning_execute
      (λ c. take_three)
      (λ b. take_three)
      (λ e commit. take_three)
      some_common
      []
      (record { grown = 0 })
      3
    ≡ until_refused
        (λ c. take_three)
        (λ b. take_three)
        (λ e commit. take_three)
        (round some_common [] (record { grown = 0 }) false
          ++ round some_common [] (record { grown = 0 }) true)
        3
ufs_provisioning_execute-until_refused_example =
    ufs_provisioning_execute-until_refused (λ c. take_three) (λ b. take_three)
      (λ e commit. take_three) some_common [] (record { grown = 0 }) 3
