-- ===== src/Tests/Hosts.antt =====
-- Hosts for the tests.
use clawpot.Common.{true, [], none, some, codes, replicate}
use clawpot.Host.{Env, written}
use clawpot.Network.Iptables.Chains.{rules, has_rule}

-- A host on which every call succeeds, every file exists, and `iptables -C` reports truly.
abbrev pub calm : Env
calm = record {
  succeeds = λ t c. true;
  link_index = λ t name. some (some 4);
  rule_exists = λ t r. some (has_rule r (rules t));
  file_exists = λ t path. true;
  write_ip_forward = λ t. written;
  read_ip_forward = λ t. some (codes "1");
  spawned = λ t. some 4242;
  new_uuid = λ t. 7;
  now = λ t. 0;
  uuid_simple = λ id. replicate 32 b'a';
  uuid_display = λ id. replicate 36 b'a';
  uuid_parse = λ text. some 7;
  exec_reply = λ t req. some (record { exit_code = 0; stdout = codes "ok"; stderr = [] });
}

-- The same host with no Firecracker binary.
abbrev pub no_firecracker : Env
no_firecracker = record calm { spawned = λ t. none }
