-- ===== src/Service/SystemdScript.antt =====
-- The constant `systemdScript` of internal/service/platform_linux.go.
use termcp_relay.Prelude.{List, [], ◌∷◌, ◌++◌, Text, codes}

-- The lines, each with its end.
abbrev lines : List Text → Text
lines [] = []
lines (l ∷ ls) = l ++ (b'\n' ∷ lines ls)

abbrev pub systemd_script : Text
systemd_script = lines (
    codes "[Unit]"
    ∷ codes "Description={{Description}}"
    ∷ codes "After=network-online.target"
    ∷ codes "Wants=network-online.target"
    ∷ codes "ConditionFileIsExecutable={{Path | cmdEscape}}"
    ∷ codes "{{range Dependencies}}{{.}}"
    ∷ codes "{{end}}"
    ∷ codes "[Service]"
    ∷ codes "StartLimitInterval=5"
    ∷ codes "StartLimitBurst=10"
    ∷ codes "ExecStart={{Path | cmdEscape}}{{range Arguments}} {{. | cmd}}{{end}}"
    ∷ codes "{{if ChRoot}}RootDirectory={{ChRoot | cmd}}"
    ∷ codes "{{end}}{{if WorkingDirectory}}WorkingDirectory={{WorkingDirectory | cmdEscape}}"
    ∷ codes "{{end}}{{if UserName}}User={{UserName}}"
    ∷ codes "{{end}}{{if ReloadSignal}}ExecReload=/bin/kill -{{ReloadSignal}} \"$MAINPID\""
    ∷ codes "{{end}}{{if PIDFile}}PIDFile={{PIDFile | cmd}}"
    ∷ codes "{{end}}{{if OutputFileSupport}}StandardOutput=file:{{LogDirectory}}/{{Name}}.out"
    ∷ codes "StandardError=file:{{LogDirectory}}/{{Name}}.err"
    ∷ codes "{{end}}{{if LimitNOFILE}}LimitNOFILE={{LimitNOFILE}}"
    ∷ codes "{{end}}{{if Restart}}Restart={{Restart}}"
    ∷ codes "{{end}}{{if SuccessExitStatus}}SuccessExitStatus={{SuccessExitStatus}}"
    ∷ codes "{{end}}RestartSec=5"
    ∷ codes "EnvironmentFile=-/etc/sysconfig/{{Name}}"
    ∷ codes ""
    ∷ codes "{{range EnvVars}}{{.}}"
    ∷ codes "{{end}}[Install]"
    ∷ codes "WantedBy=multi-user.target"
    ∷ [])
