-- ===== src/Mutation/Target.antt =====
-- A change of the cell lock with the attestation of its modem
-- (l850gl-mm-bridge/src/ubus_glib.c, bridge.c and hardware.c).
use luci_app_l850gl_mm.Service.Modems.{Surroundings}
use luci_app_l850gl_mm.Mutation.{World}
use luci_app_l850gl_mm.Registry.Support.{Description, attest_mutation_target}
use luci_app_l850gl_mm.Hardware.{Kernel}
use luci_app_l850gl_mm.Base.{ℕ, Bytes, Bool}

-- The surroundings in which `l850gl_modem_attest_mutation_target` answers for a modem, by what
-- libmm-glib tells of the modem at each address and what the kernel answers.
abbrev pub attesting :
    (Bytes → Bool) → Kernel → (ℕ → Description) → World → Surroundings → Surroundings
attesting utf8_valid fs describe w s = record s {
  attests =
      λ address. attest_mutation_target utf8_valid fs (w.modems address).live (describe address);
}
