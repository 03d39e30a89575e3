-- ===== src/Config/Addresses.antt =====
-- core/svs_config.h: the addresses that `bitmap_addresses` lists.
use svs_bridge.Base.{
  ℕ, zero, suc, ◌+◌, ◌-◌, ◌/◌, ◌≤◌, ◌<◌, ◌≡◌, ◌≢◌, refl, subst, List, [], ◌∷◌, ◌++◌, none, arith,
  All,
}
use svs_bridge.Config.{
  Eeprom, get_byte, auto_profile_base, rgsb_base, sync_bypass_base, scart_v3_base, vga_v3_base,
  tx_rgb_to_ypbpr, tx_ypbpr_to_rgb,
}
use svs_bridge.Config.Commands.{bytes_from, bitmap_bytes, bitmap_addresses}
use svs_bridge.Config.Flags.{Flag, auto, rgsb, bypass, flag_addr}
use svs_bridge.Config.Success.{IsRead}

All-left : (P : ℕ → Type 0) (bs cs : List ℕ) → All P (bs ++ cs) → All P bs
All-left P [] cs all = tt
All-left P (b ∷ bs) cs (h, all) = (h, All-left P bs cs all)

All-right : (P : ℕ → Type 0) (bs cs : List ℕ) → All P (bs ++ cs) → All P cs
All-right P [] cs all = all
All-right P (b ∷ bs) cs (h, all) = All-right P bs cs all

All-bytes_from :
    (P : ℕ → Type 0) (addr left i s : ℕ)
    → All P (bytes_from addr left)
    → s ≡ addr + i
    → i < left
    → P s
All-bytes_from P addr zero i s all e h = absurd (omega arith)
All-bytes_from P addr (suc left) zero s (first, all) e h =
    let same : addr ≡ s = omega arith in subst P same first
All-bytes_from P addr (suc left) (suc i) s (first, all) e h =
    All-bytes_from P (suc addr) left i s all (omega arith) (omega arith)

-- What holds of the addresses that are read, said of the flags that they are read for.
pub record Covered (P : ℕ → Type 0) (inputs : ℕ) : Type 0 where
  pub flags : (f : Flag) (m : ℕ) → 1 ≤ m → m ≤ inputs → P (flag_addr f m)
  pub scart : (m : ℕ) → 1 ≤ m → m ≤ inputs → P (scart_v3_base + (m - 1) / 8)
  pub vga : (m : ℕ) → 1 ≤ m → m ≤ inputs → P (vga_v3_base + (m - 1) / 8)
  pub rgb : P tx_rgb_to_ypbpr
  pub ypbpr : P tx_ypbpr_to_rgb

pub bitmap_addresses-Covered :
    (P : ℕ → Type 0) (inputs : ℕ) → All P (bitmap_addresses inputs) → Covered P inputs
unfolding bitmap_addresses
bitmap_addresses-Covered P inputs all =
    let n : ℕ = bitmap_bytes inputs in
    let all1 = All-right P (bytes_from auto_profile_base n) _ all in
    let all2 = All-right P (bytes_from rgsb_base n) _ all1 in
    let all3 = All-right P (bytes_from sync_bypass_base n) _ all2 in
    let all4 = All-right P (bytes_from scart_v3_base n) _ all3 in
    let (rgb, ypbpr) = All-right P (bytes_from vga_v3_base n) _ all4 in
    record {
      flags = λ f m low high. elim f as (λ (k : Flag). P (flag_addr k m)) [
        | auto ↦
            All-bytes_from P auto_profile_base n ((m - 1) / 8) _ (All-left P _ _ all) refl
              (omega arith)
        | rgsb ↦
            All-bytes_from P rgsb_base n ((m - 1) / 8) _ (All-left P _ _ all1) refl (omega arith)
        | bypass ↦
            All-bytes_from P sync_bypass_base n ((m - 1) / 8) _ (All-left P _ _ all2) refl
              (omega arith)
      ];
      scart = λ m low high.
          All-bytes_from P scart_v3_base n ((m - 1) / 8) _ (All-left P _ _ all3) refl (omega arith);
      vga = λ m low high.
          All-bytes_from P vga_v3_base n ((m - 1) / 8) _ (All-left P _ _ all4) refl (omega arith);
      rgb = rgb;
      ypbpr = ypbpr.0;
    }

-- The addresses that the bridge reads hold every flag of the SVS's inputs: where each of them was
-- read, no byte is missing for `plan_writes`.
pub bitmap_addresses-IsRead :
    (e : Eeprom) (inputs : ℕ)
    → All (λ a. get_byte e a ≢ none) (bitmap_addresses inputs)
    → IsRead e inputs
bitmap_addresses-IsRead e inputs all =
    Covered.flags (bitmap_addresses-Covered (λ a. get_byte e a ≢ none) inputs all)

All-append : (P : ℕ → Type 0) (bs cs : List ℕ) → All P bs → All P cs → All P (bs ++ cs)
All-append P [] cs h all = all
All-append P (b ∷ bs) cs (h, hs) all = (h, All-append P bs cs hs all)

bytes_from-lt : (addr left : ℕ) → addr + left ≤ 1024 → All (λ a. a < 1024) (bytes_from addr left)
bytes_from-lt addr zero h = tt
bytes_from-lt addr (suc left) h = (omega arith, bytes_from-lt (suc addr) left (omega arith))

pub bitmap_addresses-lt : (inputs : ℕ) → inputs ≤ 32 → All (λ a. a < 1024) (bitmap_addresses inputs)
unfolding bitmap_addresses
bitmap_addresses-lt inputs few =
    let n : ℕ = bitmap_bytes inputs in
    let P : ℕ → Type 0 = λ a. a < 1024 in
    All-append P _ _ (bytes_from-lt auto_profile_base n (omega arith)) (
      All-append P _ _ (bytes_from-lt rgsb_base n (omega arith)) (
        All-append P _ _ (bytes_from-lt sync_bypass_base n (omega arith)) (
          All-append P _ _ (bytes_from-lt scart_v3_base n (omega arith)) (
            All-append P _ _ (bytes_from-lt vga_v3_base n (omega arith))
              (omega arith, (omega arith, tt))))))
