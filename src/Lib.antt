-- ===== src/Lib.antt =====
-- Verification of the test library of XCP-ng: the code that the tests share to drive the hosts of a
-- pool, prepare secure boot data and lay out test data.
--
-- The parts, and the files that model them:
--   lib/efi.py             Efi.antt: `efi_pack` over the formats of `struct` (Efi/Struct), signature
--                          lists, databases and authenticated variables (Efi/Signature), their
--                          formats and constants (Efi/Signature/Formats), certificates and the
--                          variables that they sign (Efi/Signature/Auth).
--   lib/host.py            BlockDevices.antt: `rescan_block_devices_info`, from the rows of `lsblk`
--                          on; Common/Xe.antt: `Host.xe`; Hosts.antt: commands, files and queries
--                          (with those of lib/pool.py), with its children Power (reboots, waits,
--                          updates), Yum (packages, and the saved state of yum), Xapi (objects that
--                          a host makes or lists, scripts, the main SR) and Making (constructing
--                          hosts and pools, joining a pool).
--   lib/commands.py        Commands.antt: `ssh` and `ssh_with_result`; Commands/Local.antt: commands on
--                          the tester's machine, `scp` and `sftp` (with lib/netutil.py);
--                          Commands/PowerShell: encoded commands.
--   lib/vm.py              Vm.antt: power states and the waits for the guest; Vm/Disks: its disks and
--                          interfaces; Vm/Migration: migration, snapshots, clones (with lib/basevm.py
--                          and lib/snapshot.py); Vm/Guest: files, processes, messages, xenstore;
--                          Vm/Windows: PowerShell; Vm/Uefi: EFI variables and secure boot;
--                          Vm/Import: making, importing and caching VMs (with lib/host.py).
--   lib/windows            Vm/WindowsTools.antt: what the tests of the Windows tools do with a VM.
--   lib/common.py          Common/Values.antt: conversions; Common/Waiting.antt: `wait_for`, on any
--                          state that has a clock;
--                          Common/Xe.antt: the `_param_…` helpers, on top of `Host.xe`;
--                          Common/Nodeids.antt: the identifiers of tests.
--   lib/pool.py            Pool.antt: running a function on all hosts, to the end or with a rollback;
--                          Pool/Certs: its UEFI certificates, ISO images and the ejection of a host.
--   lib/tools/tasks        Tools.antt: what an update of pools reports on their packages (and
--                          Tools/Available); Tools/Clean: cleaning a pool.
--   lib/sr.py              Sr.antt: plugging and unplugging PBDs, scanning, and `destroy` with its
--                          retries, on top of `xe`.
--   lib/vdi.py             Vdi.antt: the parameters of a virtual disk, and the wait for coalescing.
--   jobs.py                Jobs.antt: filtering VM definitions, and merging the filters of a job with
--                          those of the command line (what is merged: Jobs/Merging); Jobs/Command:
--                          the command line of pytest (Jobs/Command/Rendered: its parameters);
--                          Jobs/Actions: the actions on jobs.
--   scripts/xcpng-fs-diff.py  FsDiff.antt: `compare_data`; FsDiff/Collect: what the hosts are asked;
--                          FsDiff/Showing: the differences of text files; FsDiff/Main: the report.
--   tests/storage/storage.py  Spans.antt: `compute_span_layout`.
-- Prelude.antt holds the names all of them share, and Effect.antt the model of Python code that may
-- raise: an action takes a state and returns a result, which is a value or an exception, and the new
-- state; what was done before a raise stays done.
--
-- How the parts interact: a command becomes an event in a trace (Commands), and what the outside
-- answers is a function of the trace, the parameter `Env`; `xe` is a command (Common/Xe), and the
-- objects of XAPI are handled by `xe`. The clock that `wait_for` reads belongs to the same `Env`. The
-- `cryptography` package, the system clock and the names of temporary files are the parameters
-- `Crypto` and `Host` of Efi/Signature, whose state is the file system and the globals of lib/efi.py.
-- Methods that assign attributes act on the trace and the object (Objects); Objects/Laws
-- has the notions of an action that leaves a part of the object alone, or all of it when it raises,
-- and Objects/Invariants that of an action that keeps a predicate of the object true. Objects that Python compares by identity carry a number. Names that the tests make up and the
-- settings of the file data.py are parameters of the methods that use them, and so is the answer of
-- the socket library on whether an address is of IPv6.
--
-- Texts are lists of code points and bytes lists of numbers. Numbers are natural; `compute_span_layout`
-- uses integers, since Python's may fall below 0. Times are whole seconds. Dictionaries are lists of
-- pairs in the order of insertion.
--
-- Bounds: `_all_available` takes the interpreter's limit on nested calls, and raises when it is
-- reached; `wait_for` takes a number of rounds, one more than the time out divided by the delay, or more;
-- destroying the VMs cached under a key, which nothing bounds in the code, takes one too.
--
-- Not modelled: logging, but for the reports of lib/tools; the splitting of the output of `lsblk`;
-- threads; failures of the tester's own disk, when a local file is written or removed; the fixtures,
-- the table of jobs and the tests themselves, which drive the library and hold little logic of their
-- own; Xen Orchestra (lib/xo.py), the installer and PXE (lib/installer.py, lib/pxe.py,
-- scripts/install_xcpng.py), and the front ends of lib/tools, which are glue to other programs.
pub mod Prelude
pub mod Effect
pub mod BlockDevices
pub mod Commands
pub mod Common
pub mod Efi
pub mod FsDiff
pub mod Hosts
pub mod Jobs
pub mod Objects
pub mod Pool
pub mod Spans
pub mod Sr
pub mod Tools
pub mod Vdi
pub mod Vm
