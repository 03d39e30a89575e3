-- ===== src/Settings/Snapshots.antt =====
-- platform/esp32/main/svs_settings.cpp: the snapshots that a write can be planned from.
use svs_bridge.Base.{
  ℕ, zero, suc, ◌≤◌, ◌<◌, ◌≡◌, refl, sym, ap, subst, ◌∙◌, List, [], ◌∷◌, arith, length,
}
use svs_bridge.Config.{
  Eeprom, Hardware, InputSettings, get_byte, set_byte, bits_from, decode_hardware,
}
use svs_bridge.Config.Bytes.{
  size, AreBytes, NoLoss, size-set_byte, set_byte-AreBytes, set_byte-NoLoss,
}
use svs_bridge.Config.Changes.{write_all}
use svs_bridge.Config.Flags.{flag_addr}
use svs_bridge.Config.Success.{IsRead}
use svs_bridge.Settings.{Info, Read}
use svs_bridge.Settings.Law.{Contents, dump}
use svs_bridge.Settings.Truth.{IsReadOf}
use svs_bridge.Settings.Sent.{AreSmall, plan_writes-AreSmall}
use svs_bridge.Settings.Started.{IsShaped}
use svs_bridge.Settings.Shape.{IsRewritten}

-- A snapshot that a write can be planned from.
pub record IsSnapshot (r : Read) : Type 0 where
  pub full : size r.eeprom ≡ 1024
  pub bytes : AreBytes r.eeprom
  pub known : IsRead r.eeprom r.inputs
  pub shaped : IsShaped r

length-bits_from : (e : Eeprom) (base n left : ℕ) → length (bits_from e base n left) ≡ left
length-bits_from e base n zero = refl
length-bits_from e base n (suc left) = ap suc (length-bits_from e base (suc n) left)

pub IsReadOf-IsSnapshot :
    (m : Contents) (i : Info) (n : ℕ) (r : Read)
    → ((a : ℕ) → m.eeprom a < 256)
    → IsReadOf m i n r
    → IsSnapshot r
unfolding decode_hardware
IsReadOf-IsSnapshot m i n r small h = record {
  full = h.contents.agrees.full;
  bytes = λ a v got. omega (arith, h.contents.agrees.agree a v got, small a);
  known = h.contents.known;
  shaped = record {
    settings = h.contents.count;
    scart =
        ap (λ (hw : Hardware). length hw.scart_v3) h.contents.hardware
        ∙ length-bits_from (dump m.eeprom) _ 1 r.inputs;
    vga =
        ap (λ (hw : Hardware). length hw.vga_v3) h.contents.hardware
        ∙ length-bits_from (dump m.eeprom) _ 1 r.inputs;
  };
}

size-write_all : (writes : List (ℕ × ℕ)) (e : Eeprom) → size (write_all writes e) ≡ size e
unfolding write_all
size-write_all [] e = refl
size-write_all ((a, v) ∷ writes) e = size-write_all writes (set_byte e a v) ∙ size-set_byte e a v

write_all-AreBytes :
    (writes : List (ℕ × ℕ)) (e : Eeprom)
    → AreSmall writes
    → AreBytes e
    → AreBytes (write_all writes e)
unfolding write_all
write_all-AreBytes [] e small bytes = bytes
write_all-AreBytes ((a, v) ∷ writes) e (low, small) bytes =
    write_all-AreBytes writes (set_byte e a v) small (set_byte-AreBytes e a v low bytes)

write_all-NoLoss : (writes : List (ℕ × ℕ)) (e : Eeprom) → NoLoss e (write_all writes e)
unfolding write_all
write_all-NoLoss [] e a gone = gone
write_all-NoLoss ((addr, v) ∷ writes) e a gone =
    set_byte-NoLoss e addr v a (write_all-NoLoss writes (set_byte e addr v) a gone)

pub IsRewritten-IsSnapshot :
    (want : List InputSettings) (r r' : Read) → IsRewritten want r r' → IsSnapshot r → IsSnapshot r'
IsRewritten-IsSnapshot want r r' h snap =
    let small = plan_writes-AreSmall r.eeprom want r.inputs h.writes h.planned in
    record {
      full = ap size h.eeprom ∙ size-write_all h.writes r.eeprom ∙ snap.full;
      bytes = subst AreBytes (sym h.eeprom) (write_all-AreBytes h.writes r.eeprom small snap.bytes);
      known = λ f m low high gone. snap.known f m low (subst (λ n. m ≤ n) h.inputs high) (
          write_all-NoLoss h.writes r.eeprom _
            (ap (λ e. get_byte e (flag_addr f m)) (sym h.eeprom) ∙ gone));
      shaped = record {
        settings = h.settings ∙ snap.shaped.settings ∙ sym h.inputs;
        scart =
            ap (λ (hw : Hardware). length hw.scart_v3) h.hardware
            ∙ snap.shaped.scart
            ∙ sym h.inputs;
        vga = ap (λ (hw : Hardware). length hw.vga_v3) h.hardware ∙ snap.shaped.vga ∙ sym h.inputs;
      };
    }
