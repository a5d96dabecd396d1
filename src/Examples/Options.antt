-- ===== src/Examples/Options.antt =====
-- The options of pkg/devices/objstore at a concrete input.
use usbd.Base.{ret, pos, ℕ, ◌≡◌, refl, Bool, true, false, some, List, [], ◌∷◌}
use usbd.Base.Result.{ok}
use usbd.Objstore.Modes.{aes_ctr, identity}
use usbd.Objstore.Options.{
  Config, Settings, apply, apply_all, check_modes, set_quota, set_flush, apply_opts, configure,
  quota_bytes, encrypt,
}
use usbd.Objstore.Options.Accepted.{IsAccepted, configure-IsAccepted}

abbrev any_key : List ℕ → Bool
any_key key = true

-- Three segments, encrypted, of which two fit into the quota.
abbrev chosen : List Settings
chosen = quota_bytes (pos 9000) ∷ encrypt aes_ctr (1 ∷ 2 ∷ []) ∷ []

abbrev accepted : Config
accepted = record {
  total_bytes = 12288;
  segment_bytes = 4096;
  concur_flush = 1;
  compress_mode = identity;
  quota = pos 9000;
  no_metadata = false;
  thick = false;
  persist = false;
  encrypt_mode = aes_ctr;
  encrypt_key = 1 ∷ 2 ∷ [];
  quota_segments = some 2;
}

chosen_passes : configure any_key 12288 4096 chosen ≡ ret (ok accepted)
unfolding configure apply_opts check_modes set_quota set_flush apply_all apply
chosen_passes = refl

configure-IsAccepted_example : IsAccepted any_key accepted
configure-IsAccepted_example = configure-IsAccepted any_key 12288 4096 chosen accepted chosen_passes
