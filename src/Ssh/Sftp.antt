-- ===== src/Ssh/Sftp.antt =====
-- SFTP in modssh_uc386dos.c: clients, files, directories and the calls on paths. An object comes with the session
-- that it keeps alive, whose handle an error is looked up with.
pub mod Files
use freedos_micro_python.Prelude.{
  ℕ, zero, suc, ◌+◌, ◌-◌, ◌*◌, ◌/◌, ◌%◌, ◌^◌, Bool, true, false, Option, none, some, List, [], ◌∷◌,
  ◌++◌, Bytes, codes, length, take, drop, get_or, leb, ltb, ◌==◌, if◌then◌else◌,
}
use freedos_micro_python.Prelude.State.{State, bit}
use freedos_micro_python.Ssh.{
  Libssh2, Received, received_none, received, receive_failed, Sent, sent, send_failed, SshError,
  not_open, Reply, replied, refused, Session, raise_session_error, checked,
}

-- What a server says of a file; the bits of `flags` are SIZE (0), UIDGID (1), PERMISSIONS (2) and ACMODTIME (3).
pub record Attributes : Type 0 where
  pub flags : ℕ
  pub permissions : ℕ
  pub filesize : ℕ
  pub atime : ℕ
  pub mtime : ℕ
  pub uid : ℕ
  pub gid : ℕ

-- A file is opened for reading, or for writing, where it is created and truncated, with a mode.
pub data OpenFlags : Type 0 where
  fxf_read fxf_write_creat_trunc : OpenFlags

-- An entry: the end, a name with its attributes, or a code.
pub data Entry : Type 0 where
  no_entry : Entry
  entry : Bytes → Attributes → Entry
  entry_failed : ℕ → Entry

pub record SftpCalls (W : Type 0) : Type 0 where
  pub sftp_init : ℕ → State W (Option ℕ)
  pub shutdown : ℕ → State W (Unit {0})
  pub open_file : ℕ → Bytes → OpenFlags → ℕ → State W (Option ℕ)
  pub open_dir : ℕ → Bytes → State W (Option ℕ)
  pub close_handle : ℕ → State W (Unit {0})
  pub read : ℕ → ℕ → State W Received
  pub write : ℕ → Bytes → State W Sent
  pub read_dir : ℕ → ℕ → State W Entry
  pub mkdir : ℕ → Bytes → ℕ → State W (Option ℕ)
  pub rmdir : ℕ → Bytes → State W (Option ℕ)
  pub unlink : ℕ → Bytes → State W (Option ℕ)
  pub rename : ℕ → Bytes → Bytes → State W (Option ℕ)
  pub stat : ℕ → Bytes → State W (Option ℕ × Attributes)
  pub realpath : ℕ → Bytes → ℕ → State W Received

-- `client` and `file_handle` are the fields `sftp` and `handle`; a directory is such an object too.
pub record Sftp : Type 0 where
  pub client : Option ℕ
  pub session : Session

pub record SftpFile : Type 0 where
  pub file_handle : Option ℕ
  pub sftp : Sftp

-- `_attrs_to_tuple`
pub attrs_to_tuple : Attributes → ℕ × ℕ × ℕ × ℕ × ℕ × ℕ
attrs_to_tuple a = (
  (if bit 2 a.flags then a.permissions else 0),
  (if bit 0 a.flags then a.filesize else 0),
  (if bit 3 a.flags then a.atime else 0),
  (if bit 3 a.flags then a.mtime else 0),
  (if bit 1 a.flags then a.uid else 0),
  (if bit 1 a.flags then a.gid else 0),
)

-- `want`, for what is left of the size; `none` is -1.
pub chunk_of : Option ℕ → ℕ
chunk_of none = 1024
chunk_of (some max_len) = if leb 1024 max_len then 1024 else max_len

-- `max_len -= n`, which is no limit once it is negative, and whether the loop goes on.
pub less : Option ℕ → ℕ → Option ℕ × Bool
less none n = (none, true)
less (some zero) n = (some zero, true)
less (some (suc max_len)) n =
    if ltb (suc max_len) n
    then (none, true)
    else (some (suc max_len - n), if suc max_len - n == 0 then false else true)

-- The loop of a read: the bytes, or a code; `starved` where the fuel has run out.
pub data Reading : Type 0 where
  read_all : Bytes → Reading
  read_failed : ℕ → Reading
  starved : Reading

pub data Outcome {ℓ} (A : Type ℓ) : Type ℓ where
  done_with : Reply A → Outcome A
  unfinished : Outcome A

module _ {W : Type 0} (lib : Libssh2 W) (calls : SftpCalls W) where
  pub fails {ℓ} : {A : Type ℓ} → Session → ℕ → Bytes → W → Reply A × W
  fails sess err fallback w =
      let (e, w1) = raise_session_error lib sess.handle err fallback w in (refused e, w1)

  unfoldable pub session_sftp : Session → State W (Reply Sftp)
  session_sftp self w = elim self.handle [
    | none ↦ (refused not_open, w)
    | some s ↦
        let (made, w1) = calls.sftp_init s w in
        elim made [
          | none ↦ fails self 1 (codes "sftp_init") w1
          | some client ↦ (replied (record { client = some client; session = self }), w1)
        ]
  ]

  pub sftp_close : Sftp × W → Unit {0} × (Sftp × W)
  sftp_close (self, w) = elim self.client [
    | none ↦ (tt, (self, w))
    | some c ↦ (let (_, w1) = calls.shutdown c w in (tt, (record self { client = none }, w1)))
  ]

  -- 420 is 0644.
  pub sftp_open : Bytes → Bytes → Sftp → State W (Reply SftpFile)
  sftp_open path mode self w = elim self.client [
    | none ↦ (refused not_open, w)
    | some c ↦
        let flags = if get_or mode 0 0 == b'w' then fxf_write_creat_trunc else fxf_read in
        let (made, w1) = calls.open_file c path flags 420 w in
        elim made [
          | none ↦ fails self.session 1 (codes "sftp_open") w1
          | some h ↦ (replied (record { file_handle = some h; sftp = self }), w1)
        ]
  ]

  pub sftp_opendir : Bytes → Sftp → State W (Reply SftpFile)
  sftp_opendir path self w = elim self.client [
    | none ↦ (refused not_open, w)
    | some c ↦
        let (made, w1) = calls.open_dir c path w in
        elim made [
          | none ↦ fails self.session 1 (codes "sftp_opendir") w1
          | some h ↦ (replied (record { file_handle = some h; sftp = self }), w1)
        ]
  ]

  -- `ssh_sftp_file_close` and `ssh_sftp_dir_close`, whose calls of libssh2 are one macro.
  pub sftp_file_close : SftpFile × W → Unit {0} × (SftpFile × W)
  sftp_file_close (self, w) = elim self.file_handle [
    | none ↦ (tt, (self, w))
    | some h ↦
        (let (_, w1) = calls.close_handle h w in (tt, (record self { file_handle = none }, w1)))
  ]

  pub sftp_read_loop : ℕ → ℕ → Option ℕ → Bytes → State W Reading
  sftp_read_loop zero h max_len vstr w = (starved, w)
  sftp_read_loop (suc fuel) h max_len vstr w =
      let (r, w1) = calls.read h (chunk_of max_len) w in
      elim r [
        | received_none ↦ (read_all vstr, w1)
        | receive_failed n ↦ (read_failed n, w1)
        | received c cs ↦
            let (rest, more) = less max_len (length (c ∷ cs)) in
            elim more [
              | false ↦ (read_all (vstr ++ c ∷ cs), w1)
              | true ↦ sftp_read_loop fuel h rest (vstr ++ c ∷ cs) w1
            ]
      ]

  pub sftp_file_read : ℕ → Option ℕ → SftpFile → State W (Outcome Bytes)
  sftp_file_read fuel max_len self w = elim self.file_handle [
    | none ↦ (done_with (refused not_open), w)
    | some h ↦
        let (r, w1) = sftp_read_loop fuel h max_len [] w in
        elim r [
          | starved ↦ (unfinished, w1)
          | read_all bytes ↦ (done_with (replied bytes), w1)
          | read_failed n ↦
              let (e, w2) = fails self.sftp.session n (codes "sftp_read") w1 in (done_with e, w2)
        ]
  ]

  -- What is left to write, or a code.
  pub sftp_write_loop : ℕ → ℕ → Bytes → State W Reading
  sftp_write_loop fuel h [] w = (read_all [], w)
  sftp_write_loop zero h (c ∷ cs) w = (starved, w)
  sftp_write_loop (suc fuel) h (c ∷ cs) w =
      let (r, w1) = calls.write h (c ∷ cs) w in
      elim r [
        | send_failed n ↦ (read_failed n, w1)
        | sent n ↦ elim (n == 0) [
          | true ↦ (read_all (c ∷ cs), w1)
          | false ↦ sftp_write_loop fuel h (drop n (c ∷ cs)) w1
        ]
      ]

  pub sftp_file_write : ℕ → Bytes → SftpFile → State W (Outcome ℕ)
  sftp_file_write fuel input self w = elim self.file_handle [
    | none ↦ (done_with (refused not_open), w)
    | some h ↦
        let (r, w1) = sftp_write_loop fuel h input w in
        elim r [
          | starved ↦ (unfinished, w1)
          | read_all rest ↦ (done_with (replied (length input - length rest)), w1)
          | read_failed n ↦
              let (e, w2) = fails self.sftp.session n (codes "sftp_write") w1 in (done_with e, w2)
        ]
  ]

  -- `none` at the end of the directory.
  pub sftp_dir_read : SftpFile → State W (Reply (Option (Bytes × (ℕ × ℕ × ℕ × ℕ × ℕ × ℕ))))
  sftp_dir_read self w = elim self.file_handle [
    | none ↦ (refused not_open, w)
    | some h ↦
        let (r, w1) = calls.read_dir h 256 w in
        elim r [
          | no_entry ↦ (replied none, w1)
          | entry name attrs ↦ (replied (some (name, attrs_to_tuple attrs)), w1)
          | entry_failed n ↦ fails self.sftp.session n (codes "sftp_readdir") w1
        ]
  ]

  -- A call on a path that gives nothing.
  pub on_path : Bytes → (ℕ → State W (Option ℕ)) → Sftp → State W (Reply (Unit {0}))
  on_path fallback call self w = elim self.client [
    | none ↦ (refused not_open, w)
    | some c ↦ checked lib self.session.handle fallback tt (call c w)
  ]

  -- The default mode of a directory is 493, 0755.
  pub sftp_mkdir : Bytes → Option ℕ → Sftp → State W (Reply (Unit {0}))
  sftp_mkdir path mode =
      on_path (codes "sftp_mkdir") (λ c. calls.mkdir c path (elim mode [ none ↦ 493 | some m ↦ m ]))

  pub sftp_rmdir : Bytes → Sftp → State W (Reply (Unit {0}))
  sftp_rmdir path = on_path (codes "sftp_rmdir") (λ c. calls.rmdir c path)

  pub sftp_unlink : Bytes → Sftp → State W (Reply (Unit {0}))
  sftp_unlink path = on_path (codes "sftp_unlink") (λ c. calls.unlink c path)

  pub sftp_rename : Bytes → Bytes → Sftp → State W (Reply (Unit {0}))
  sftp_rename old_path new_path =
      on_path (codes "sftp_rename") (λ c. calls.rename c old_path new_path)

  pub sftp_stat : Bytes → Sftp → State W (Reply (ℕ × ℕ × ℕ × ℕ × ℕ × ℕ))
  sftp_stat path self w = elim self.client [
    | none ↦ (refused not_open, w)
    | some c ↦
        let ((rc, attrs), w1) = calls.stat c path w in
        checked lib self.session.handle (codes "sftp_stat") (attrs_to_tuple attrs) (rc, w1)
  ]

  pub sftp_realpath : Bytes → Sftp → State W (Reply Bytes)
  sftp_realpath path self w = elim self.client [
    | none ↦ (refused not_open, w)
    | some c ↦
        let (r, w1) = calls.realpath c path 512 w in
        elim r [
          | received_none ↦ (replied [], w1)
          | received d ds ↦ (replied (d ∷ ds), w1)
          | receive_failed n ↦ fails self.session n (codes "sftp_realpath") w1
        ]
  ]
