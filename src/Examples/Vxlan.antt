-- ===== src/Examples/Vxlan.antt =====
-- An example of the codes of addresses.
use my_cni.Prelude.{◌≡◌, arith}
use my_cni.Exec.{ok}
use my_cni.Vxlan.{inet_ip_to_uint32, uint32_to_inet_ip}
use my_cni.Vxlan.Address.{inet_ip-uint32}
use my_cni.Examples.{no_v6}

inet_ip-uint32_example : inet_ip_to_uint32 (uint32_to_inet_ip 167837954) ≡ ok 167837954
inet_ip-uint32_example = inet_ip-uint32 167837954 (omega arith)
