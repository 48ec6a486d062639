-- ===== src/System.antt =====
-- What the module asks of the operating system and of nginx's allocator, as a parameter: the state
-- of the files during one request, and whether there is memory for a cache entry.
use ngx_htaccess.Common.{Bool, Option, Bytes}
use ngx_htaccess.Directives.{FileInfo}

-- What `ngx_open_file`, `ngx_fd_info` and `ngx_read_fd` give: the file cannot be opened, it cannot
-- be read (also where there is no memory for its bytes), or its bytes.
pub data Contents : Type 0 where
  unopened unreadable : Contents
  content : Bytes → Contents

pub record System : Type 0 where
  -- `ngx_file_info`, with none for NGX_FILE_ERROR.
  pub stat : Bytes → Option FileInfo
  pub open_file : Bytes → Contents
  -- `crypt` of the C library: the hash of a password by a setting, or none for NULL.
  pub crypt : Bytes → Bytes → Option Bytes
  -- Whether `ngx_alloc` gives memory for the cache entry of a path.
  pub has_memory : Bytes → Bool
