-- ===== src/Ufs.antt =====
-- ufs.c: the provisioning of UFS, its file and its execution.
pub mod Parts
pub mod Laws
pub mod Rounds
mod Tests
use qfenix.Common.{
  ℕ, Bool, true, false, not, Option, none, some, List, [], ◌∷◌, ◌++◌, ◌==◌, ◌&&◌, ◌||◌,
  if◌then◌else◌,
}
use qfenix.Patch.{attr_as_string, attr_as_unsigned}
use qfenix.Tasks.Queue.{and_then, nothing}

-- The attributes that are asked for.
pub data UfsAttribute : Type 0 where
  b_number_lu b_boot_enable b_descr_access_en b_init_power_mode b_high_priority_lun : UfsAttribute
  b_secure_removal_type b_init_active_icc_level w_periodic_rtc_update : UfsAttribute
  b_config_descr_lock b_write_booster_buffer_preserve_user_space_en : UfsAttribute
  b_write_booster_buffer_type shared_wb_buffer_size_in_kb : UfsAttribute
  lu_num b_lu_enable b_boot_lun_id size_in_kb b_data_reliability b_lu_write_protect : UfsAttribute
  b_memory_type b_logical_block_size b_provisioning_type w_context_capabilities desc : UfsAttribute
  lun_to_grow commit : UfsAttribute

pub record UfsCommon : Type 0 where
  pub number_lu : ℕ
  pub boot_enable : Bool
  pub descr_access_en : Bool
  pub init_power_mode : ℕ
  pub high_priority_lun : ℕ
  pub secure_removal_type : ℕ
  pub init_active_icc_level : ℕ
  pub periodic_rtc_update : ℕ
  pub config_descr_lock : Bool
  pub wb : Bool
  pub preserve_user_space_en : Bool
  pub write_booster_buffer_type : Bool
  pub shared_wb_buffer_size : ℕ

pub record UfsBody : Type 0 where
  pub lu : ℕ
  pub lu_enable : Bool
  pub boot_lun_id : ℕ
  pub size : ℕ
  pub data_reliability : ℕ
  pub lu_write_protect : ℕ
  pub memory_type : ℕ
  pub logical_block_size : ℕ
  pub provisioning_type : ℕ
  pub context_capabilities : ℕ
  pub description : Option (List ℕ)

pub record UfsEpilogue : Type 0 where
  pub grown : ℕ

-- A child of the root; the attributes of a tag are a function.
pub data UfsNode : Type 0 where
  no_element other_tag : UfsNode
  ufs_tag : (UfsAttribute → Option (List ℕ)) → UfsNode

-- `freed` tells that what the pointers point to was freed; they are not reset.
pub record Ufs : Type 0 where
  pub common : Option UfsCommon
  pub bodies : List UfsBody
  pub epilogue : Option UfsEpilogue
  pub freed : Bool

-- The results of `ufs_load`: 0, -EEXIST and -EINVAL.
pub data UfsResult : Type 0 where
  ufs_loaded ufs_exists ufs_invalid : UfsResult

unfoldable pub ufs_need_provisioning : Ufs → Bool
ufs_need_provisioning s = elim s.epilogue [ none ↦ false | some e ↦ true ]

-- `!!`.
unfoldable pub is_set : ℕ → Bool
is_set v = not (v == 0)

unfoldable pub is_there : {A : Type 0} → Option A → Bool
is_there none = false
is_there (some v) = true

-- The tests behind the loop.
unfoldable pub finish_ufs : Bool → Bool → Ufs → UfsResult × Ufs
finish_ufs finalize_provisioning going s = elim going [
  | false ↦ (ufs_invalid, record s { freed = true })
  | true ↦ elim s.common [
    | none ↦ (ufs_invalid, record s { freed = true })
    | some c ↦ elim s.bodies [
      | [] ↦ (ufs_invalid, record s { freed = true })
      | b ∷ rest ↦ elim s.epilogue [
        | none ↦ (ufs_invalid, record s { freed = true })
        | some e ↦ elim finalize_provisioning [
          | true ↦ if c.config_descr_lock then (ufs_loaded, s) else (ufs_invalid, s)
          | false ↦ if c.config_descr_lock then (ufs_invalid, s) else (ufs_loaded, s)
        ]
      ]
    ]
  ]
]

module _ (strtoul : List ℕ → ℕ) where
  unfoldable pub ufs_parse_common_params : (UfsAttribute → Option (List ℕ)) → Option UfsCommon
  unfolding attr_as_unsigned is_set
  ufs_parse_common_params a =
      let (number_lu, e1) = attr_as_unsigned strtoul (a b_number_lu) 0 in
      let (boot_enable, e2) = attr_as_unsigned strtoul (a b_boot_enable) e1 in
      let (descr_access_en, e3) = attr_as_unsigned strtoul (a b_descr_access_en) e2 in
      let (init_power_mode, e4) = attr_as_unsigned strtoul (a b_init_power_mode) e3 in
      let (high_priority_lun, e5) = attr_as_unsigned strtoul (a b_high_priority_lun) e4 in
      let (secure_removal_type, e6) = attr_as_unsigned strtoul (a b_secure_removal_type) e5 in
      let (icc_level, e7) = attr_as_unsigned strtoul (a b_init_active_icc_level) e6 in
      let (rtc_update, e8) = attr_as_unsigned strtoul (a w_periodic_rtc_update) e7 in
      let (lock, e9) = attr_as_unsigned strtoul (a b_config_descr_lock) e8 in
      let (preserve, f1) =
        attr_as_unsigned strtoul (a b_write_booster_buffer_preserve_user_space_en) 0 in
      let (buffer_type, f2) = attr_as_unsigned strtoul (a b_write_booster_buffer_type) f1 in
      let (buffer_size, f3) = attr_as_unsigned strtoul (a shared_wb_buffer_size_in_kb) f2 in
      if not (e9 == 0)
      then none
      else some (record {
        number_lu = number_lu;
        boot_enable = is_set boot_enable;
        descr_access_en = is_set descr_access_en;
        init_power_mode = init_power_mode;
        high_priority_lun = high_priority_lun;
        secure_removal_type = secure_removal_type;
        init_active_icc_level = icc_level;
        periodic_rtc_update = rtc_update;
        config_descr_lock = is_set lock;
        wb = f3 == 0;
        preserve_user_space_en = is_set preserve;
        write_booster_buffer_type = is_set buffer_type;
        shared_wb_buffer_size = buffer_size;
      })

  unfoldable pub ufs_parse_body : (UfsAttribute → Option (List ℕ)) → Option UfsBody
  unfolding attr_as_unsigned attr_as_string is_set
  ufs_parse_body a =
      let (lu, e1) = attr_as_unsigned strtoul (a lu_num) 0 in
      let (lu_enable, e2) = attr_as_unsigned strtoul (a b_lu_enable) e1 in
      let (boot_lun_id, e3) = attr_as_unsigned strtoul (a b_boot_lun_id) e2 in
      let (size, e4) = attr_as_unsigned strtoul (a size_in_kb) e3 in
      let (data_reliability, e5) = attr_as_unsigned strtoul (a b_data_reliability) e4 in
      let (lu_write_protect, e6) = attr_as_unsigned strtoul (a b_lu_write_protect) e5 in
      let (memory_type, e7) = attr_as_unsigned strtoul (a b_memory_type) e6 in
      let (block_size, e8) = attr_as_unsigned strtoul (a b_logical_block_size) e7 in
      let (provisioning_type, e9) = attr_as_unsigned strtoul (a b_provisioning_type) e8 in
      let (capabilities, e10) = attr_as_unsigned strtoul (a w_context_capabilities) e9 in
      let (description, e11) = attr_as_string (a desc) e10 in
      if not (e11 == 0)
      then none
      else some (record {
        lu = lu;
        lu_enable = is_set lu_enable;
        boot_lun_id = boot_lun_id;
        size = size;
        data_reliability = data_reliability;
        lu_write_protect = lu_write_protect;
        memory_type = memory_type;
        logical_block_size = block_size;
        provisioning_type = provisioning_type;
        context_capabilities = capabilities;
        description = description;
      })

  unfoldable pub ufs_parse_epilogue : (UfsAttribute → Option (List ℕ)) → Option UfsEpilogue
  unfolding attr_as_unsigned
  ufs_parse_epilogue a =
      let (grown, errors) = attr_as_unsigned strtoul (a lun_to_grow) 0 in
      if not (errors == 0) then none else some (record { grown = grown })

  -- A tag `ufs`, by the attributes that tell its kind; false for `retval = -EINVAL; break`.
  unfoldable pub load_ufs_tag : (UfsAttribute → Option (List ℕ)) → Ufs → Bool × Ufs
  unfolding ufs_parse_common_params ufs_parse_body ufs_parse_epilogue is_there
  load_ufs_tag a s =
      if is_there (a b_number_lu)
      then elim s.common [
        | some c ↦ (false, s)
        | none ↦ elim (ufs_parse_common_params a) [
          | none ↦ (false, s)
          | some c ↦ (true, record s { common = some c })
        ]
      ]
      else if is_there (a lu_num)
      then elim (ufs_parse_body a) [
        | none ↦ (false, s)
        | some b ↦ (true, record s { bodies = s.bodies ++ b ∷ [] })
      ]
      else if is_there (a commit)
      then elim s.epilogue [
        | some e ↦ (false, s)
        | none ↦ elim (ufs_parse_epilogue a) [
          | none ↦ (false, s)
          | some e ↦ (true, record s { epilogue = some e })
        ]
      ]
      else (false, s)

  unfoldable pub load_ufs_nodes : List UfsNode → Ufs → Bool × Ufs
  unfolding load_ufs_tag
  load_ufs_nodes [] s = (true, s)
  load_ufs_nodes (no_element ∷ rest) s = load_ufs_nodes rest s
  load_ufs_nodes (other_tag ∷ rest) s = load_ufs_nodes rest s
  load_ufs_nodes (ufs_tag a ∷ rest) s =
      let (going, s') = load_ufs_tag a s in
      elim going [ true ↦ load_ufs_nodes rest s' | false ↦ (false, s') ]

  -- A file that cannot be parsed is `none`.
  unfoldable pub ufs_load : Bool → Option (List UfsNode) → Ufs → UfsResult × Ufs
  unfolding load_ufs_nodes finish_ufs
  ufs_load finalize_provisioning file s = elim s.common [
    | some c ↦ (ufs_exists, s)
    | none ↦ elim file [
      | none ↦ (ufs_invalid, s)
      | some nodes ↦
          let (going, s') = load_ufs_nodes nodes s in finish_ufs finalize_provisioning going s'
    ]
  ]

-- What is applied; a result other than zero is a failure.
module _ {S : Type 0} (apply_ufs_common : UfsCommon → S → ℕ × S)
    (apply_ufs_body : UfsBody → S → ℕ × S)
    (apply_ufs_epilogue : UfsEpilogue → Bool → S → ℕ × S) where
  unfoldable pub apply_bodies : List UfsBody → S → ℕ × S
  unfolding and_then nothing
  apply_bodies [] = nothing
  apply_bodies (b ∷ rest) = and_then (apply_ufs_body b) (apply_bodies rest)

  -- With the pointers as they were loaded.
  unfoldable pub ufs_provisioning_execute : UfsCommon → List UfsBody → UfsEpilogue → S → ℕ × S
  unfolding and_then apply_bodies
  ufs_provisioning_execute c bodies e = and_then (apply_ufs_common c) (
      and_then (apply_bodies bodies) (
        and_then (apply_ufs_epilogue e false) (
          and_then (apply_ufs_common c)
            (and_then (apply_bodies bodies) (apply_ufs_epilogue e true)))))
