-- ===== src/Flasher/Boot.antt =====
-- platform/esp32/main/svs_flasher.cpp: what the bootloader says of itself, and whether it can be flashed.
use svs_bridge.Base.{
  ℕ, ◌+◌, ◌-◌, ◌*◌, ◌/◌, ◌%◌, ◌^◌, bit_and, bit_or, Bool, true, false, not, ◌&&◌, ◌||◌, List, ltb,
  leb, ◌==◌, if◌then◌else◌, get_or, same_bytes,
}
use svs_bridge.Flasher.{
  is_ok, Port, Sync, BootInfo, Device, no_device, Summary, stk500, no_flash_read, no_page_erase,
  no_information, unrecognized, unexpected_mcu, urboot, Problem, no_problem, classic, not_atmega,
  cannot_read, cannot_erase, unread, not_urboot, preview_first, mcu_id, flash_size, page_size,
  stk_insync, stk_ok, ub_n_mcu,
}
use svs_bridge.Flasher.Line.{read_flash}

abbrev pub is_stk500 : ℕ → ℕ → Bool
is_stk500 insync ok = insync == stk_insync && ok == stk_ok

-- The 16 bits that the sync bytes stand for.
unfoldable pub sync_info : ℕ → ℕ → ℕ
sync_info insync ok =
    if insync == 255 && ok == 254
    then stk_insync * 255 + stk_ok
    else if ltb insync ok
    then insync * 255 + (ok - 1)
    else insync * 255 + ok

unfoldable pub mcuid_of : ℕ → ℕ → ℕ
mcuid_of insync ok = sync_info insync ok % ub_n_mcu

unfoldable pub features_of : ℕ → ℕ → ℕ
features_of insync ok = sync_info insync ok / ub_n_mcu

-- `features & UB_READ_FLASH`, `features & UB_FLASH_LL_NOR`: bits 2 and 3.
abbrev pub reads_flash : ℕ → Bool
reads_flash features = not (features / 2 ^ 2 % 2 == 0)

abbrev pub ll_nor : ℕ → Bool
ll_nor features = not (features / 2 ^ 3 % 2 == 0)

abbrev boot_info : Sync → List ℕ → Bool → BootInfo
boot_info sync table table_read = record {
  insync = sync.insync;
  ok = sync.ok;
  table = table;
  table_read = table_read;
}

-- `read_boot_info`, with the table as it was before.
unfoldable pub read_boot_info : {W : Type 0} → Port W → Sync → List ℕ → W → BootInfo × W
read_boot_info port sync table w =
    let ((e, table'), w') = read_flash port sync (flash_size - 6) table w in
    if is_stk500 sync.insync sync.ok
    then (boot_info sync table false, w)
    else if mcuid_of sync.insync sync.ok == mcu_id && reads_flash (features_of sync.insync sync.ok)
    then (boot_info sync table' (is_ok e), w')
    else (boot_info sync table false, w)

abbrev same_flag : Bool → Bool → Bool
same_flag true b = b
same_flag false b = not b

unfoldable pub same_bootloader : BootInfo → BootInfo → Bool
same_bootloader a b =
    a.insync == b.insync
    && (a.ok == b.ok && (same_flag a.table_read b.table_read && same_bytes a.table b.table))

abbrev pub pages_of : List ℕ → ℕ
pages_of table = get_or table 0 0 % 128

abbrev pub vector_of : List ℕ → ℕ
vector_of table = get_or table 1 0 % 128

-- `table[2] | table[3] << 8`, of two bytes.
abbrev pub rjmp_of : List ℕ → ℕ
rjmp_of table = bit_or (get_or table 2 0) (get_or table 3 0 * 2 ^ 8)

-- 075, 0147 and 077 are octal.
abbrev pub is_urboot : ℕ → ℕ → Bool
is_urboot version rjmp =
    leb 61 version && (leb version 103 && (rjmp == 0x9508 || rjmp / 2 ^ 12 == 12))

abbrev pub is_vector : ℕ → ℕ → ℕ → Bool
is_vector vector version cap = not (vector == 0) || (leb version 63 && not (bit_and cap 0x0C == 0))

abbrev pub refused : Summary → Problem → Device
refused summary problem = record no_device { checked = true; summary = summary; problem = problem }

abbrev pub accepted : Bool → ℕ → ℕ → Summary → Device
accepted vector number app_space summary = record {
  checked = true;
  compatible = true;
  vector = vector;
  vector_verified = false;
  summary = summary;
  problem = if vector then preview_first else no_problem;
  app_space = app_space;
  vector_num = if vector then number else 0;
}

-- The end of `evaluate`, on the table's fields.
unfoldable pub evaluate_table : ℕ → ℕ → ℕ → ℕ → ℕ → Device
evaluate_table pages vector rjmp cap version =
    let bl_size = pages * page_size in
    let vector_bl = is_vector vector version cap in
    if not (is_urboot version rjmp) || (ltb bl_size 64 || ltb 2048 bl_size)
    then refused unrecognized not_urboot
    else accepted vector_bl vector (flash_size - bl_size) (urboot version bl_size vector_bl)

unfoldable pub evaluate : BootInfo → Device
evaluate bi =
    let features = features_of bi.insync bi.ok in
    let mcuid = mcuid_of bi.insync bi.ok in
    if is_stk500 bi.insync bi.ok
    then refused stk500 classic
    else if not (mcuid == mcu_id)
    then refused (unexpected_mcu mcuid) not_atmega
    else if not (reads_flash features)
    then refused no_flash_read cannot_read
    else if ll_nor features
    then refused no_page_erase cannot_erase
    else if not bi.table_read
    then refused no_information unread
    else evaluate_table (pages_of bi.table) (vector_of bi.table) (rjmp_of bi.table)
        (get_or bi.table 4 0) (get_or bi.table 5 0)
