-- ===== src/Util/Passwd/Tests.antt =====
-- The hexadecimal form at concrete inputs.
use ebftpd.Prelude.{codes, arith}
use ebftpd.Util.Passwd.Laws.{IsBytes}

bytes : IsBytes (codes "k9~")
bytes = (omega arith, (omega arith, (omega arith, tt)))
