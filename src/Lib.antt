-- ===== src/Lib.antt =====
-- A verification library for the FreeDOS port of MicroPython (C,
-- src/freedos_micro_python/port/): models of the C functions behind its Python modules,
-- translated clause by clause, and theorems on what they compute.
--
-- - Base64 models base64_uc386dos.c: base64_b64encode is `b64encode`, its decoding loop
--   `b64decode_loop`, and so on; Base64/RoundTrip and Base64/Strict hold the theorems.
--
-- - Quote, Scan, Urlsplit and Query model urllib_parse_uc386dos.c: quote_inner and do_unquote
--   keep their names, urllib_urlsplit is `urlsplit` with a helper for each piece that it cuts
--   off, urllib_urlencode and urllib_parse_qsl are `urlencode` and `parse_qsl`, which call
--   `quote_inner` and `urllib_unquote_plus` as the C functions do. Scan has the scanning loop
--   that they share.
--
-- - OsPath models path_uc386dos.c: mod_path_X is `X`. Its children are the two backward
--   searches (Search), the functions that cut a path (Splitting), join (Joining), the normal
--   form of a path (Normal), what normpath keeps (Squeezed) and abspath (Absolute).
--
-- - Clock models time_real_uc386dos.c: days_from_civil is compared with a calendar in
--   Clock/Calendar, and mktime and gettimeofday are taken up in Clock/Seconds.
--
-- - Shutil models shutil_uc386dos.c: shutil_X is `X`. Lwip models lwip_uc386dos.c:
--   uc386dos_eth_X is `eth_X`, and lwip_uc386dos_X and the rest are `X`.
--
-- - Hal models mphal_uc386dos.c, modtime_uc386dos.c and sys_now of lwip_uc386dos.c.
--
-- - Ne2k models the NE2000 driver in pktdrv_uc386dos.c: ne2k_X is `X`. Rmstub models the thunk
--   paragraph that pktdrv_alloc_thunk fills, by an interpreter for the bytes of its receiver
--   stub. Pktdrv models the receive path around them: uc386dos_pktdrv_receiver is `receiver`,
--   pktdrv_X is `X`; `recv_slot` is pktdrv_recv without the NE2000 driver.
--
-- - Tempfile models tempfile_uc386dos.c: tempfile_X is `X`. NetAddr models
--   uc386_net_uc386dos.c: the texts of addresses there, and the functions of the module,
--   mod_uc386_net_X as `X`, in NetAddr/Module, over Lwip.
--
-- - Dos21 models dosint21_uc386dos.c: dos_int21_X is `dos_X` for the seven calls and `X` for
--   the rest. A state `Dos` has the globals, memory, and what else the machine holds.
--   Dos21/Calls is about the gate, Dos21/Paths about the calls with a path, and Dos21/Disk says
--   what DOS documents of reads and writes (`IsDos`) and what their callers get;
--   Dos21/Simulator is a small DOS that runs.
--
-- - OsModule models os_uc386dos.c: mod_uc386dos_os_X is `X`; its children are about listdir and
--   environ.
--
-- - Crynwr models the rest of pktdrv_uc386dos.c: finding a packet driver (`detect`), and in its
--   children attaching (`init`, which is pktdrv_init) and sending (`send`).
--
-- - Files models file_uc386dos.c over Dos21: uc386dos_file_X is `file_X`, uc386dos_builtin_open
--   is `builtin_open`. Its children are about open, reads, writes and closed objects.
--
-- - Crypto models libssh2_axtls.c and the types of libssh2_axtls.h: _libssh2_axtls_X and
--   _libssh2_X are `X`. Crypto has the hashes and the HMAC, Crypto/Cipher the AES modes,
--   Crypto/Bignum the big numbers, Crypto/Keys the keys; Hmac, Stream, RoundTrip, Value,
--   Balance, Signing and Scalar below them have the theorems.
--
-- - Ssh models modssh_uc386dos.c: ssh_session_X is `session_X` (or `userauth_X`), ssh_sftp_X is
--   `sftp_X`. Ssh has the sessions, Ssh/Channels exec and SCP, Ssh/Sftp the rest; their
--   children and Ssh/Negotiation and Ssh/Closed have the theorems. A channel or a server may
--   answer for ever without progress, so the loops run on a fuel, and each theorem on one says
--   how much is enough.
--
-- - Tls models modtls_axtls_uc386dos.c: ssl_context_X is `X`, ssl_socket_make_new is
--   `wrap_socket`, the stream methods are `socket_read` and so on. Tls/Methods/Received follows
--   the bytes of reads, and Tls/Verified the checking of certificates. Its loops run on a fuel
--   of the caller's choice, since axTLS may go on answering 0.
--
-- Each part has a module Tests with runs on concrete inputs and an application of each theorem.
-- Prelude has the names that all share.
--
-- A byte is a number below 256 and a text is a list of them. 32-bit arithmetic is written with
-- its wrap-around, `% 2 ^ 32`; a subtraction adds the modulus first. A C function that raises a
-- Python exception returns a `Result`. parse_qsl runs on fuel, one unit for a byte and one
-- more, which is enough since each round passes at least one byte. The stub runs for at most 12
-- instructions, the length of its longest path; the wait for an idle transmitter in send_direct
-- has fuel of the caller's choice, since the card may never be idle. The loops of Files run on
-- fuel, one unit for a byte that is asked for, which is enough since each round transfers at
-- least one or ends. listdir and environ run on fuel, one unit for an entry; copy_stream runs
-- on one unit for a byte of the source and one more; the receive pump of Lwip has fuel of the
-- caller's choice, since frames may go on coming. The delays read a list of counter values,
-- since the BIOS counter is not part of the port.
--
-- Parameters stand for code that is not in the repository: MicroPython's str() in Query,
-- vstr_add_char and getcwd in OsPath (vstr_add_char appends an ASCII code as one byte, as
-- documented, where a theorem says so), libc's stat, getenv in Tempfile, `%u` of snprintf in
-- NetAddr (decimal digits, where a theorem says so), timeutils_seconds_since_epoch in Hal, the
-- INT instruction, the DPMI call gate and which addresses can be written in Dos21, the C
-- library in OsModule and Shutil, lwIP and the drivers in Lwip and NetAddr/Module (that lwIP
-- stores an address that it is given is a hypothesis there, `IsLwip` of Lwip/Addresses), the
-- INT instruction in NetAddr/Module, axTLS and the stream underneath in Tls, axTLS, TweetNaCl
-- and the helpers of libssh2 in Crypto, libssh2 and the socket in Ssh, the INT instruction and
-- the calls in real mode in Crynwr, and the port instructions in Ne2k. What the packet driver
-- does with the stub is written from its interface, as the source's comments give it.
--
-- Not modelled: the construction of Python objects from the bytes and its check of UTF-8,
-- memory allocation where a caller does not see it fail, most of the diagnostic output and the
-- conversion of Python arguments; the functions of libssh2_axtls.c that only return -1 (RSA,
-- Diffie-Hellman, ChaCha20, key files by name, bcrypt, BSD sockets) and the clearing of its
-- contexts; pktdrv_diag, which copies counters; math_gamma.c, which is floating-point
-- arithmetic; modmachine_uc386dos.c, urllib_uc386dos.c, mpconfigport.h and lwipopts.h, which
-- are tables, macros and empty hooks; the copied header of axTLS; the programs under rigs, the
-- scripts and the tests.
pub mod Prelude
pub mod Base64
pub mod Clock
pub mod Crynwr
pub mod Crypto
pub mod Dos21
pub mod Files
pub mod Hal
pub mod Lwip
pub mod Ne2k
pub mod NetAddr
pub mod OsModule
pub mod OsPath
pub mod Pktdrv
pub mod Query
pub mod Quote
pub mod Rmstub
pub mod Scan
pub mod Shutil
pub mod Ssh
pub mod Tempfile
pub mod Tls
pub mod Urlsplit
