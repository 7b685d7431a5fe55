-- ===== src/Serve/Untouched.antt =====
-- The commands of src/main.cpp that do not read from the open image leave what the client records of it.
use ps3netsrv.Prelude.{ℕ, ◌≡◌, arith, some, List}
use ps3netsrv.Env.{AbstractFile, Os, Stat}
use ps3netsrv.Session.{Status, Client, Session, send_all}
use ps3netsrv.Path.{is_some}
use ps3netsrv.Commands.{PathCmd, reply, recv_path}
use ps3netsrv.Commands.Paths.{
  WriteFileCmd, create_at, process_create_cmd, on_path, process_open_dir_cmd, process_stat_cmd,
  write_data, write_received, process_write_file_cmd,
}
use ps3netsrv.Listing.{Version, send_none, send_entry, list_entry, process_read_dir_entry_cmd}
use ps3netsrv.Listing.Items.{Item}
use ps3netsrv.Listing.Whole.{send_items, process_read_dir_cmd}
use ps3netsrv.DirSize.{process_get_dir_size_cmd}

-- The image, its size, its sector size, and whether there is a buffer.
pub record Untouched {F : AbstractFile} (c c' : Client F) : Type 0 where
  pub same_file : c'.ro_file ≡ c.ro_file
  pub same_size : c'.ro_file_size ≡ c.ro_file_size
  pub same_sector : c'.cd_sector_size ≡ c.cd_sector_size
  pub same_buffer : is_some c'.buf ≡ is_some c.buf

module _ {os : Os} (root : List ℕ) (cmd : PathCmd) (s : Session os) where
  pub create-Untouched : Untouched s.client (process_create_cmd root cmd s).1.client
  unfolding process_create_cmd create_at reply recv_path send_all
  create-Untouched = ground arith

  pub on_path-Untouched :
      (call : List ℕ → Os.World os → ℕ × Os.World os)
      → Untouched s.client (on_path root call cmd s).1.client
  unfolding on_path reply recv_path send_all
  on_path-Untouched call = ground arith

  pub open_dir-Untouched : Untouched s.client (process_open_dir_cmd root cmd s).1.client
  unfolding process_open_dir_cmd reply recv_path send_all
  open_dir-Untouched = ground arith

  pub stat-Untouched :
      (junk : Stat) (stack : List ℕ)
      → Untouched s.client (process_stat_cmd root junk stack cmd s).1.client
  unfolding process_stat_cmd reply recv_path send_all
  stat-Untouched junk stack = ground arith

module _ {os : Os} (s : Session os) where
  pub write_file-Untouched :
      (cmd : WriteFileCmd) → Untouched s.client (process_write_file_cmd cmd s).1.client
  unfolding process_write_file_cmd write_received write_data reply send_all
  write_file-Untouched cmd = ground arith

  pub read_dir_entry-Untouched :
      (v : Version) → Untouched s.client (process_read_dir_entry_cmd v s).1.client
  unfolding process_read_dir_entry_cmd list_entry send_none send_entry send_all
  read_dir_entry-Untouched v = ground arith

  send_items-Untouched : (items : List Item) → Untouched s.client (send_items items s).1.client
  unfolding send_items send_all
  send_items-Untouched items = ground arith

  pub read_dir-Untouched :
      (root : List ℕ) (st : Status) (s' : Session os)
      → process_read_dir_cmd root s ≡ some (st, s')
      → Untouched s.client s'.client
  unfolding process_read_dir_cmd send_items send_all
  read_dir-Untouched root st s' e = ground (arith, e)

  pub get_dir_size-Untouched :
      (root : List ℕ) (fuel : ℕ) (cmd : PathCmd) (st : Status) (s' : Session os)
      → process_get_dir_size_cmd root fuel cmd s ≡ some (st, s')
      → Untouched s.client s'.client
  unfolding process_get_dir_size_cmd reply recv_path send_all
  get_dir_size-Untouched root fuel cmd st s' e = ground (arith, e)
