-- ===== src/ScanConfig/Valid.antt =====
-- What Validate of scanner/app/config.go leaves in a configuration.
use node_util.Base.{◌≡◌, false, not, ◌&&◌, some, arith, ◌==◌, if◌then◌else◌, length}
use node_util.Base.Int.{pos}
use node_util.Scanner.{max_tcp_port}
use node_util.ScanConfig.{Config, below, validate}

-- A configuration that Validate accepts has a source of addresses, a burst and a number of threads
-- of one at least, an interval of a millisecond at least and no negative start port. An end port
-- that is not positive stays as it is: the start port becomes the last port then.
pub validate-bounds :
    (conf c : Config)
    → validate conf ≡ some c
    → ((length c.ips == 0) && not c.broker_enabled ≡ false)
      × ((below c.burst 1 ≡ false)
          × ((below c.threads 1 ≡ false)
              × ((below c.interval 1_000_000 ≡ false)
                  × ((below c.port_start 0 ≡ false)
                      × ((c.port_end ≡ conf.port_end)
                          × (c.port_start ≡ (
                              if below c.port_end 1
                              then pos max_tcp_port
                              else (if below conf.port_start 0
                                  then pos 0
                                  else conf.port_start))))))))
unfolding validate
validate-bounds conf c h = (
  ground arith,
  (ground arith, (ground arith, (ground arith, (ground arith, (ground arith, ground arith))))),
)
