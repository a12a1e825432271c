-- ===== src/Config/Inits.antt =====
-- Project/config.h: what the threads of `main` hand to their managers, and what the managers' `init`
-- functions keep of it. Each is a set of addresses of variables that the threads share. The
-- functions' `retval` of the argument is its field `status`; the variables that `data_mgr` names
-- `connmgr_drop_conn_mutex` and `connmgr_sensor_to_drop` are declared nowhere, and are taken to be
-- those that `conn_mgr` names `connmgr_stopconn_mutex` and `connmgr_sensor_stopsig`.
use btvnlinux.Prelude.{◌≡◌, refl}
use btvnlinux.Memory.{Ptr, null}

-- `connmgr_init_t`
pub record ConnmgrInit : Type 0 where
  pub pipe_mutex : Ptr
  pub connmgr_stopconn_mutex : Ptr
  pub pipe_fd : Ptr
  pub status : Ptr
  pub connmgr_sensor_stopsig : Ptr

-- `datamgr_init_t`
pub record DatamgrInit : Type 0 where
  pub pipe_mutex : Ptr
  pub connmgr_stopconn_mutex : Ptr
  pub pipe_fd : Ptr
  pub status : Ptr
  pub connmgr_sensor_stopsig : Ptr

-- `storagemgr_init_t`
pub record StoragemgrInit : Type 0 where
  pub pipe_mutex : Ptr
  pub pipe_fd : Ptr
  pub status : Ptr

-- The static pointers of a manager that it sets from its argument; the storage manager has no stop
-- signal.
pub record Statics : Type 0 where
  pub retval : Ptr
  pub pfd : Ptr
  pub pipe_mutex : Ptr
  pub connmgr_stopconn_mutex : Ptr
  pub connmgr_sensor_stopsig : Ptr

-- `connmgr_init`, `datamgr_init` and `storagemgr_init`, on the pointers that were set before.
pub connmgr_init : ConnmgrInit → Statics → Statics
connmgr_init arg s = record {
  retval = arg.status;
  pfd = arg.pipe_fd;
  pipe_mutex = arg.pipe_mutex;
  connmgr_stopconn_mutex = arg.connmgr_stopconn_mutex;
  connmgr_sensor_stopsig = arg.connmgr_sensor_stopsig;
}

pub datamgr_init : DatamgrInit → Statics → Statics
datamgr_init arg s = record {
  retval = arg.status;
  pfd = arg.pipe_fd;
  pipe_mutex = arg.pipe_mutex;
  connmgr_stopconn_mutex = arg.connmgr_stopconn_mutex;
  connmgr_sensor_stopsig = arg.connmgr_sensor_stopsig;
}

pub storagemgr_init : StoragemgrInit → Statics → Statics
storagemgr_init arg s = record s {
  retval = arg.status;
  pfd = arg.pipe_fd;
  pipe_mutex = arg.pipe_mutex;
}

-- The addresses of the variables that `main` shares out.
pub record Globals : Type 0 where
  pub pfd : Ptr
  pub pipe_mutex : Ptr
  pub connmgr_stopconn_mutex : Ptr
  pub connmgr_sensor_stopsig : Ptr

-- `int *retval = THREAD_SUCCESS;`, which is 0: the pointer is NULL.
abbrev pub thread_success : Ptr
thread_success = null

-- The arguments that `conn_mgr`, `data_mgr` and `stor_mgr` fill in.
pub conn_arg : Globals → ConnmgrInit
conn_arg g = record {
  pipe_mutex = g.pipe_mutex;
  connmgr_stopconn_mutex = g.connmgr_stopconn_mutex;
  connmgr_sensor_stopsig = g.connmgr_sensor_stopsig;
  pipe_fd = g.pfd;
  status = thread_success;
}

pub data_arg : Globals → DatamgrInit
data_arg g = record {
  pipe_mutex = g.pipe_mutex;
  connmgr_stopconn_mutex = g.connmgr_stopconn_mutex;
  connmgr_sensor_stopsig = g.connmgr_sensor_stopsig;
  pipe_fd = g.pfd;
  status = thread_success;
}

pub stor_arg : Globals → StoragemgrInit
stor_arg g = record { pipe_mutex = g.pipe_mutex; pipe_fd = g.pfd; status = thread_success }

-- What each manager reports through is the pipe and the mutex of `main`, the connection manager and
-- the data manager work on one stop signal under one mutex, and no manager has a place for its
-- result.
pub inits-share :
    (g : Globals) (c d s : Statics)
    → (((connmgr_init (conn_arg g) c).connmgr_sensor_stopsig
          ≡ (datamgr_init (data_arg g) d).connmgr_sensor_stopsig)
        × ((connmgr_init (conn_arg g) c).connmgr_stopconn_mutex
            ≡ (datamgr_init (data_arg g) d).connmgr_stopconn_mutex))
      × ((connmgr_init (conn_arg g) c).pipe_mutex ≡ (storagemgr_init (stor_arg g) s).pipe_mutex)
      × ((connmgr_init (conn_arg g) c).retval ≡ null)
      × ((datamgr_init (data_arg g) d).retval ≡ null)
      × ((storagemgr_init (stor_arg g) s).retval ≡ null)
unfolding connmgr_init datamgr_init storagemgr_init conn_arg data_arg stor_arg
inits-share g c d s = ((refl, refl), refl, refl, refl, refl)
