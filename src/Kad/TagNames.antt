-- ===== src/Kad/TagNames.antt =====
-- crates/overlord-kad-proto/src/constants.rs: the short tag names that the models use.
use p2p_overlord_agents.Base.{ℕ}

abbrev pub filename : ℕ
filename = 0x01

abbrev pub filesize : ℕ
filesize = 0x02

abbrev pub filetype : ℕ
filetype = 0x03

abbrev pub fileformat : ℕ
fileformat = 0x04

abbrev pub sources : ℕ
sources = 0x15

abbrev pub publishinfo : ℕ
publishinfo = 0x33

abbrev pub kadaichhashpub : ℕ
kadaichhashpub = 0x36

abbrev pub kadaichhashresult : ℕ
kadaichhashresult = 0x37

abbrev pub filesize_hi : ℕ
filesize_hi = 0x3A

abbrev pub serverip : ℕ
serverip = 0xFB

abbrev pub sourceuport : ℕ
sourceuport = 0xFC

abbrev pub sourceport : ℕ
sourceport = 0xFD

abbrev pub sourceip : ℕ
sourceip = 0xFE

abbrev pub sourcetype : ℕ
sourcetype = 0xFF
