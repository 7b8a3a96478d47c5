-- ===== src/Subnetd/Round.antt =====
-- A round of the daemon on a node without a subnet file, and the round after it.
use my_cni.Prelude.{
  ℕ, ◌+◌, ◌*◌, ◌^◌, ◌/◌, ◌%◌, ◌<◌, ◌≡◌, refl, ◌∙◌, ap, Bool, true, false, none, some, length, arith,
  all_below, all_below-elim, ◌==◌,
}
use my_cni.Text.{Bytes, same, join}
use my_cni.Text.Equal.{same-eq}
use my_cni.Net.{Notation6, parse_cidr, dotted, itoa, atoi, ip_string}
use my_cni.Net.Dotted.{parse_cidr-dotted, split-dotted}
use my_cni.Utils.Subnet.{cidr_text}
use my_cni.Exec.{Result, ok, err, panic, hang, message, subnet_file_missing}
use my_cni.Local.Host.{Host, SubnetConf, load_subnet_config}
use my_cni.Subnetd.{LeaseEtcd, Process, Kube, mask_key, subnet_conf, checked_number, bit_of}
use my_cni.Subnetd.Daemon.{check_local_subnet_file_settings, round}
use my_cni.Subnetd.Mask.{first_free}
use my_cni.Subnetd.Laws.{IsLawful}
use my_cni.Subnetd.Sync.{found_mask, Taken, sync-takes_first}

-- 10.244.`bit`.0 as a word.
abbrev pub subnet_word : ℕ → ℕ
subnet_word bit = 183762944 + bit * 2 ^ 8

text_table :
    all_below 256 (λ bit. same (subnet_conf bit).subnet (cidr_text (subnet_word bit) 24)) ≡ true
unfolding all_below same itoa dotted join
text_table = refl

abbrev is_number : Result ℕ → ℕ → Bool
is_number (ok n) m = n == m
is_number _ m = false

is_number-eq : (r : Result ℕ) (m : ℕ) → is_number r m ≡ true → r ≡ ok m
is_number-eq (ok n) m h = ap ok (ground arith)
is_number-eq (err e) m h = cc
is_number-eq panic m h = cc
is_number-eq hang m h = cc

number_table : all_below 256 (λ bit. is_number (checked_number (atoi (itoa bit))) bit) ≡ true
unfolding all_below atoi itoa
number_table = refl

subnet_conf-text : (bit : ℕ) → bit < 256 → (subnet_conf bit).subnet ≡ cidr_text (subnet_word bit) 24
subnet_conf-text bit h = same-eq _ _ (
    all_below-elim 256 (λ b. same (subnet_conf b).subnet (cidr_text (subnet_word b) 24)) bit h
      text_table)

number : (bit : ℕ) → bit < 256 → checked_number (atoi (itoa bit)) ≡ ok bit
number bit h =
    is_number-eq _ bit
      (all_below-elim 256 (λ b. is_number (checked_number (atoi (itoa b))) b) bit h number_table)

module _ ⦃n6 : Notation6⦄ where
  bit_of-conf : (bit : ℕ) → bit < 256 → bit_of (parse_cidr (subnet_conf bit).subnet) ≡ ok bit
  unfolding ip_string
  bit_of-conf bit h =
      rw
        (
          subnet_conf-text bit h,
          parse_cidr-dotted (subnet_word bit) 24 (omega arith) (omega arith),
          split-dotted (subnet_word bit),
        )
        (ap (λ x. checked_number (atoi (itoa x))) (third_byte bit h) ∙ number bit h)
    where
      third_byte : (b : ℕ) → b < 256 → subnet_word b / 2 ^ 8 % 256 ≡ b
      third_byte b l = omega arith

module _ (E : LeaseEtcd) (unmarshal_subnet : Bytes → Result SubnetConf) ⦃n6 : Notation6⦄
    (marshal_subnet : SubnetConf → Bytes)
    (codec : (c : SubnetConf) → unmarshal_subnet (marshal_subnet c) ≡ ok c) where
  -- The subnet that a node wrote to its file is the one that a later check reads from it, and the check
  -- changes nothing.
  pub check-filed :
      (p : Process E) (h : Host) (bit : ℕ)
      → bit < 256
      → p.host ≡ record h { subnet_file = some (marshal_subnet (subnet_conf bit)) }
      → (check_local_subnet_file_settings E unmarshal_subnet p).0 ≡ ok bit
  unfolding check_local_subnet_file_settings load_subnet_config
  check-filed p h bit l e = rw (e, codec (subnet_conf bit)) (bit_of-conf bit l)

  no_file :
      (p : Process E)
      → p.host.subnet_file ≡ none
      → check_local_subnet_file_settings E unmarshal_subnet p ≡ (err subnet_file_missing, p)
  unfolding check_local_subnet_file_settings load_subnet_config
  no_file p e = rw e refl

  -- A node without a subnet file is given the first free subnet, in the mask and in its file, and its
  -- process then ends with a fatal error all the same: the subnet read before was -1. The next check
  -- reads the subnet.
  pub first_round-fatal :
      (L : IsLawful E) (kube : Kube) (p : Process E)
      → L.IsUp p.server
      → length (found_mask (L.contents p.server mask_key)) ≡ 256
      → first_free (found_mask (L.contents p.server mask_key)) < 256
      → p.host.writable ≡ true
      → p.host.subnet_file ≡ none
      → (q : Process E) × (round E unmarshal_subnet marshal_subnet kube p
          ≡ (panic, record q { fatal = some (message "Invalid subnet cidr in subnet.json!") }))
        × Taken L unmarshal_subnet marshal_subnet p q
            (found_mask (L.contents p.server mask_key))
            (first_free (found_mask (L.contents p.server mask_key)))
        × ((check_local_subnet_file_settings E unmarshal_subnet q).0
            ≡ ok (first_free (found_mask (L.contents p.server mask_key))))
  unfolding round
  first_round-fatal L kube p up long free writable missing =
      let (q, e, t) = sync-takes_first L unmarshal_subnet marshal_subnet p up long free writable in
      (
        q,
        rw (no_file p missing, e) refl,
        t,
        check-filed q p.host (first_free (found_mask (L.contents p.server mask_key))) free t.filed,
      )
