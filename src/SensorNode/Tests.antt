-- ===== src/SensorNode/Tests.antt =====
-- The simulated sensor for two rounds. A value is a natural number.
use btvnlinux.Prelude.{ℕ, suc, ◌+◌, ◌≡◌, refl, none, some, [], ◌∷◌, arith}
use btvnlinux.Prelude.Int.{pos}
use btvnlinux.Memory.{write, ok}
use btvnlinux.Tcpsock.Defs.{Socket, magic_cookie}
use btvnlinux.Tcpsock.Transfer.{Errno}
use btvnlinux.SensorNode.{id_field, value_field, ts_field, Round, Node, send_readings}
use btvnlinux.SensorNode.Sent.{send_readings-after}

abbrev socket : Socket
socket = record { cookie = magic_cookie; sd = pos 4; ip_addr = 0; port = pos 1234 }

abbrev idle : Node ℕ
idle = record {
  net = record { sockets = write (λ a. none) 50 (some socket); strings = λ a. none; calls = [] };
  sent = [];
  log = [];
}

-- The time is 1000 and the rounds that are left, and it gets a degree warmer.
abbrev warmer : ℕ → Round ℕ
warmer i = record {
  id_count = pos 2;
  value_count = pos 8;
  ts_count = pos 8;
  errno = Errno.other;
  change = λ v. suc v;
  now = 1000 + i;
}

send_readings-after_example :
    send_readings 2 warmer 50 (record { id = 15; value = 20; ts = 0 }) idle
    ≡ ok tt (record idle {
      sent =
          id_field 15
          ∷ value_field 21
          ∷ ts_field 1001
          ∷ id_field 15
          ∷ value_field 22
          ∷ ts_field 1000
          ∷ [];
      log =
          record { id = 15; value = 21; ts = 1001 }
          ∷ record { id = 15; value = 22; ts = 1000 }
          ∷ [];
    })
send_readings-after_example =
    send_readings-after 2 warmer 50 (record { id = 15; value = 20; ts = 0 }) socket idle
      (λ j. ((1, refl), (7, refl), (7, refl))) (omega arith) refl refl
