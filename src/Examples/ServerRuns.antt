-- ===== src/Examples/ServerRuns.antt =====
-- A server with one connection is shut down, and the wait for its sessions is given up.
use signalg.Base.{[], ◌∷◌, Bytes, some, none, refl}
use signalg.Errors.{canceled, nil_error}
use signalg.Handler.Drained.{came, gave_up}
use signalg.Server.Running.{Running, running_shutdown}
use signalg.Server.Stopped.{IsStopped, running_shutdown-IsStopped}
use signalg.Examples.Instances.{assoc_map, plain_encoders}
use signalg.Examples.ConnectionRuns.{json_config, new_conn}
use signalg.Examples.HandlerRuns.{joined, server}
use signalg.Examples.BroadcastRuns.{send_job, close_job}

abbrev running : Running assoc_map Bytes
running = record { server = server; handler = joined; handler_err = none }

running_shutdown-IsStopped_example :
    IsStopped assoc_map plain_encoders
      (some json_config)
      send_job
      close_job
      (λ c. new_conn)
      (λ c. c)
      (came ∷ [])
      (gave_up canceled)
      nil_error
      (running_shutdown assoc_map
        (λ c. new_conn)
        (λ c. c)
        (came ∷ [])
        (gave_up canceled)
        nil_error
        running)
running_shutdown-IsStopped_example =
    running_shutdown-IsStopped assoc_map plain_encoders (some json_config) send_job close_job
      (λ c. new_conn) (λ c. c) (came ∷ []) (gave_up canceled) nil_error running refl refl
